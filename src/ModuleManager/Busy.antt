-- ===== src/ModuleManager/Busy.antt =====
-- The names of the busy modules.
use libapostol.Prelude.{
  ◌≡◌, refl, Bool, true, false, not, List, [], ◌∷◌, Bytes, all, is_empty, arith, Bool-cases, inl,
  inr,
}
use libapostol.ModuleManager.{
  Module, ModuleManager, is_busy, busy_in, busy, with_element, busy_names_from, busy_names,
}

abbrev pub has_name : {W : Type 0} → Module W → Bool
has_name m = not (is_empty m.name)

with_element-nonempty :
    (result text : Bytes) → is_empty text ≡ false → is_empty (with_element result text) ≡ false
with_element-nonempty [] text h = h
with_element-nonempty (c ∷ cs) text h = refl

module _ {W : Type 0} where
  -- A list that is not empty stays so.
  busy_names_from-nonempty :
      (ms : List (Module W)) (w : W) (result : Bytes)
      → all has_name ms ≡ true
      → is_empty result ≡ false
      → is_empty (busy_names_from w result ms) ≡ false
  unfolding busy_names_from
  busy_names_from-nonempty [] w result h e = e
  busy_names_from-nonempty (m ∷ ms) w result h e = elim (Bool-cases (is_busy w m)) [
    | inl works ↦ rw works (
        busy_names_from-nonempty ms w (with_element result m.name) (ground (arith, h))
          (with_element-nonempty result m.name (ground (arith, h))))
    | inr rests ↦ rw rests (busy_names_from-nonempty ms w result (ground (arith, h)) e)
  ]

  busy_names_from-busy :
      (ms : List (Module W)) (w : W)
      → all has_name ms ≡ true
      → is_empty (busy_names_from w [] ms) ≡ not (busy_in w ms)
  unfolding busy_names_from busy_in
  busy_names_from-busy [] w h = refl
  busy_names_from-busy (m ∷ ms) w h = elim (Bool-cases (is_busy w m)) [
    | inl works ↦
        rw works (busy_names_from-nonempty ms w m.name (ground (arith, h)) (ground (arith, h)))
    | inr rests ↦ rw rests (busy_names_from-busy ms w (ground (arith, h)))
  ]

  -- Where every module has a name: busy_names is empty exactly when busy returns false.
  pub busy_names-busy :
      (mm : ModuleManager W)
      → all has_name mm.modules ≡ true
      → is_empty (busy_names mm) ≡ not (busy mm)
  busy_names-busy mm h = busy_names_from-busy mm.modules mm.scene.world h
