-- ===== src/Collective/Allreduce/Elements.antt =====
-- gloo/allreduce.cc: what the calls on regions do at the address of one element.
use gloo.Prelude.{
  ℕ, zero, suc, ◌≡◌, refl, ap, ◌∙◌, ◌+◌, ◌-◌, ◌*◌, ◌/◌, ◌%◌, ◌≤◌, ◌<◌, true, false, ◌&&◌, ◌⊎◌, inl,
  inr, List, [], ◌∷◌, ltb, leb, ◌==◌, Bool-cases, arith,
}
use gloo.Collective.{memcpy}
use gloo.Collective.Allreduce.Local.{
  Options, reduce_elements, reduce_rest, reduce_outputs, local_reduce, local_broadcast,
}
use gloo.Collective.Allreduce.Cuts.{covers}
use Prim.Native.Nat.{◌∣◌}
use native.Mathlib.Nat.{div-mul_cancel, div-mul-le_self, mod-eq-zero_of_dvd, dvd-sub}

-- The reduction of the inputs, element by element.
unfoldable pub rest_value {ℓ} : {A : Type ℓ} → (A → A → A) → List (ℕ → A) → A → ℕ → A
rest_value op [] v a = v
rest_value op (m ∷ ms) v a = rest_value op ms (op v (m a)) a

unfoldable pub outputs_value {ℓ} : {A : Type ℓ} → (A → A → A) → (ℕ → ℕ → A) → (n : ℕ) → A → ℕ → A
outputs_value op copies zero v a = v
outputs_value op copies (suc n) v a = op (outputs_value op copies n v a) (copies (suc n) a)

unfoldable pub inputs_value {ℓ} :
    {A : Type ℓ} → Options A → List (ℕ → A) → (ℕ → ℕ → A) → (ℕ → A) → ℕ → A
inputs_value o [] copies out a = outputs_value o.op copies (o.outputs - 1) (out a) a
inputs_value o (m ∷ []) copies out a = m a
inputs_value o (m ∷ m' ∷ ms) copies out a = rest_value o.op ms (o.op (m a) (m' a)) a

-- Only the elements at the address matter.
module _ {ℓ} {A : Type ℓ} (o : Options A) (copies copies' : ℕ → ℕ → A) (out out' : ℕ → A)
    (a : ℕ) where
  outputs_value_same :
      (n : ℕ)
      → out a ≡ out' a
      → ((i : ℕ) → copies i a ≡ copies' i a)
      → outputs_value o.op copies n (out a) a ≡ outputs_value o.op copies' n (out' a) a
  unfolding outputs_value
  outputs_value_same zero e h = e
  outputs_value_same (suc n) e h = rw (outputs_value_same n e h, h (suc n)) refl

  pub inputs_value_same :
      (ms : List (ℕ → A))
      → out a ≡ out' a
      → ((i : ℕ) → copies i a ≡ copies' i a)
      → inputs_value o ms copies out a ≡ inputs_value o ms copies' out' a
  unfolding inputs_value
  inputs_value_same [] e h = outputs_value_same (o.outputs - 1) e h
  inputs_value_same (m ∷ []) e h = refl
  inputs_value_same (m ∷ m' ∷ ms) e h = refl

pub covered_iff :
    (offset length a : ℕ) → covers offset length a ≡ true → (offset ≤ a) × (a < offset + length)
unfolding covers
covered_iff offset length a h = (ground arith, ground arith)

pub memcpy-hit {ℓ} :
    {A : Type ℓ} (offset length a : ℕ) (m out : ℕ → A)
    → covers offset length a ≡ true
    → memcpy offset offset length m out a ≡ m a
unfolding memcpy covers
memcpy-hit offset length a m out h = rw h (ap m (omega (arith, covered_iff offset length a h)))

pub memcpy-miss {ℓ} :
    {A : Type ℓ} (to from length a : ℕ) (m out : ℕ → A)
    → covers to length a ≡ false
    → memcpy to from length m out a ≡ out a
unfolding memcpy covers
memcpy-miss to from length a m out h = rw h refl

module _ {ℓ} {A : Type ℓ} (o : Options A) (offset length a : ℕ) where
  pub reduce_elements-miss :
      (from : ℕ) (target x y : ℕ → A)
      → covers offset length a ≡ false
      → reduce_elements o offset from length target x y a ≡ target a
  unfolding reduce_elements covers
  reduce_elements-miss from target x y h = rw test refl
    where
      test :
          ((leb offset a && ltb a (offset + length / o.element_size * o.element_size))
            && ((a - offset) % o.element_size == 0))
          ≡ false
      test = ground (arith, div-mul-le_self length o.element_size)

  reduce_rest-miss :
      (ms : List (ℕ → A)) (out : ℕ → A)
      → covers offset length a ≡ false
      → reduce_rest o offset length ms out a ≡ out a
  unfolding reduce_rest
  reduce_rest-miss [] out h = refl
  reduce_rest-miss (m ∷ ms) out h =
      reduce_rest-miss ms _ h ∙ reduce_elements-miss offset out out m h

  reduce_outputs-miss :
      (copies : ℕ → ℕ → A) (n : ℕ) (out : ℕ → A)
      → covers offset length a ≡ false
      → reduce_outputs o offset length copies n out a ≡ out a
  unfolding reduce_outputs
  reduce_outputs-miss copies zero out h = refl
  reduce_outputs-miss copies (suc n) out h =
      reduce_elements-miss offset _ _ (copies (suc n)) h ∙ reduce_outputs-miss copies n out h

  -- Outside of the region nothing changes.
  pub local_reduce-miss :
      (ms : List (ℕ → A)) (copies : ℕ → ℕ → A) (out : ℕ → A)
      → covers offset length a ≡ false
      → local_reduce o offset length ms copies out a ≡ out a
  unfolding local_reduce
  local_reduce-miss [] copies out h = reduce_outputs-miss copies (o.outputs - 1) out h
  local_reduce-miss (m ∷ []) copies out h = memcpy-miss offset offset length a m out h
  local_reduce-miss (m ∷ m' ∷ ms) copies out h =
      reduce_rest-miss ms _ h ∙ reduce_elements-miss offset out m m' h

  pub local_broadcast-miss :
      (out : ℕ → A) (copies : ℕ → ℕ → A) (i : ℕ)
      → covers offset length a ≡ false
      → local_broadcast o offset length out copies i a ≡ copies i a
  unfolding local_broadcast
  local_broadcast-miss out copies i h = elim (Bool-cases (leb 1 i && ltb i o.outputs)) [
    | inl e ↦ rw e (memcpy-miss offset offset length a out (copies i) h)
    | inr e ↦ rw e refl
  ]

  pub local_broadcast_either :
      (out : ℕ → A) (copies : ℕ → ℕ → A) (i : ℕ)
      → (local_broadcast o offset length out copies i a ≡ copies i a)
        ⊎ (local_broadcast o offset length out copies i a ≡ out a)
  unfolding local_broadcast
  local_broadcast_either out copies i = elim (Bool-cases (leb 1 i && ltb i o.outputs)) [
    | inl e ↦ elim (Bool-cases (covers offset length a)) [
      | inl h ↦ inr (rw e (memcpy-hit offset length a out (copies i) h))
      | inr h ↦ inl (rw e (memcpy-miss offset offset length a out (copies i) h))
    ]
    | inr e ↦ inl (rw e refl)
  ]

  module _ (hit : covers offset length a ≡ true) where
    pub local_broadcast-hit :
        (out : ℕ → A) (copies : ℕ → ℕ → A) (i : ℕ)
        → 1 ≤ i
        → i < o.outputs
        → local_broadcast o offset length out copies i a ≡ out a
    unfolding local_broadcast
    local_broadcast-hit out copies i lo hi =
        rw within (memcpy-hit offset length a out (copies i) hit)
      where
        within : (leb 1 i && ltb i o.outputs) ≡ true
        within = ground arith

    module _ (whole_offset : o.element_size ∣ offset) (whole_length : o.element_size ∣ length)
        (whole : o.element_size ∣ a) where
      -- Where an element of the region starts, it is reduced.
      pub reduce_elements-hit :
          (from : ℕ) (target x y : ℕ → A)
          → reduce_elements o offset from length target x y a ≡ o.op (x a) (y (from + (a - offset)))
      unfolding reduce_elements covers
      reduce_elements-hit from target x y = rw test refl
        where
          test :
              ((leb offset a && ltb a (offset + length / o.element_size * o.element_size))
                && ((a - offset) % o.element_size == 0))
              ≡ true
          test = ground (
            arith,
            covered_iff offset length a hit,
            div-mul_cancel o.element_size whole_length,
            mod-eq-zero_of_dvd o.element_size (dvd-sub o.element_size whole whole_offset),
          )

      reduce_here :
          (target x y : ℕ → A)
          → reduce_elements o offset offset length target x y a ≡ o.op (x a) (y a)
      reduce_here target x y =
          reduce_elements-hit offset target x y
          ∙ ap (λ z. o.op (x a) (y z)) (omega (arith, covered_iff offset length a hit))

      reduce_rest-hit :
          (ms : List (ℕ → A)) (out : ℕ → A)
          → reduce_rest o offset length ms out a ≡ rest_value o.op ms (out a) a
      unfolding reduce_rest rest_value
      reduce_rest-hit [] out = refl
      reduce_rest-hit (m ∷ ms) out =
          reduce_rest-hit ms (reduce_elements o offset offset length out out m)
          ∙ ap (λ v. rest_value o.op ms v a) (reduce_here out out m)

      reduce_outputs-hit :
          (copies : ℕ → ℕ → A) (n : ℕ) (out : ℕ → A)
          → reduce_outputs o offset length copies n out a ≡ outputs_value o.op copies n (out a) a
      unfolding reduce_outputs outputs_value
      reduce_outputs-hit copies zero out = refl
      reduce_outputs-hit copies (suc n) out =
          reduce_here _ _ (copies (suc n))
          ∙ ap (λ v. o.op v (copies (suc n) a)) (reduce_outputs-hit copies n out)

      pub local_reduce-hit :
          (ms : List (ℕ → A)) (copies : ℕ → ℕ → A) (out : ℕ → A)
          → local_reduce o offset length ms copies out a ≡ inputs_value o ms copies out a
      unfolding local_reduce inputs_value
      local_reduce-hit [] copies out = reduce_outputs-hit copies (o.outputs - 1) out
      local_reduce-hit (m ∷ []) copies out = memcpy-hit offset length a m out hit
      local_reduce-hit (m ∷ m' ∷ ms) copies out =
          reduce_rest-hit ms (reduce_elements o offset offset length out m m')
          ∙ ap (λ v. rest_value o.op ms v a) (reduce_here out m m')
