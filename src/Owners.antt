-- ===== src/Owners.antt =====
-- Objects that each own what a pointer of theirs points to: moves, assignments and destructions over a
-- store of them. A class says where its pointer is and what a move leaves of the source.
use polliwog.Base.{
  ℕ, zero, suc, ◌+◌, ◌≤◌, ◌≡◌, ◌≢◌, refl, ap, ◌∙◌, false, List, [], ◌∷◌, Option, none, some, ◌==◌,
  Bool-cases, Option-cases, inl, inr, if◌then◌else◌, set, get_elem?, get_elem?-set_ne, arith,
}

-- The address that an object's pointer holds, or `none` for nullptr; and the object once it was moved from.
pub record Class (X : Type 0) : Type 0 where
  pub ctx : X → Option ℕ
  pub emptied : X → X

-- The objects, where one that was destroyed stays as an empty one, and what was freed through a pointer.
pub record Store (X : Type 0) : Type 0 where
  pub objects : List X
  pub freed : List ℕ

-- if (p) free(p)
abbrev pub release : Option ℕ → List ℕ → List ℕ
release none freed = freed
release (some c) freed = c ∷ freed

pub data Step : Type 0 where
  constructed : ℕ → Step
  assigned : ℕ → ℕ → Step
  destroyed : ℕ → Step

-- How often an address is held by a pointer and in a list.
abbrev one : ℕ → ℕ → ℕ
one c x = if x == c then 1 else 0

abbrev pub in_pointer : ℕ → Option ℕ → ℕ
in_pointer c none = 0
in_pointer c (some x) = one c x

abbrev pub in_freed : ℕ → List ℕ → ℕ
in_freed c [] = 0
in_freed c (x ∷ xs) = one c x + in_freed c xs

module _ {X : Type 0} (K : Class X) where
  -- X(X &&), from object j: the new object comes first
  unfoldable pub move_construct : ℕ → Store X → Store X
  move_construct j s = elim (get_elem? s.objects j) [
    | none ↦ s
    | some o ↦ record s { objects = o ∷ set s.objects j (K.emptied o) }
  ]

  abbrev pub assign_other : ℕ → ℕ → Store X → Option X → Option X → Store X
  assign_other i j s (some t) (some o) = record {
    objects = set (set s.objects i o) j (K.emptied o);
    freed = release (K.ctx t) s.freed;
  }
  assign_other i j s _ _ = s

  -- operator=(X &&), of object i from object j
  unfoldable pub move_assign : ℕ → ℕ → Store X → Store X
  move_assign i j s =
      if i == j then s else assign_other i j s (get_elem? s.objects i) (get_elem? s.objects j)

  -- ~X() of object i
  unfoldable pub destroy : ℕ → Store X → Store X
  destroy i s = elim (get_elem? s.objects i) [
    | none ↦ s
    | some o ↦ record { objects = set s.objects i (K.emptied o); freed = release (K.ctx o) s.freed }
  ]

  unfoldable pub step : Step → Store X → Store X
  unfolding move_construct move_assign destroy
  step (Step.constructed j) s = move_construct j s
  step (Step.assigned i j) s = move_assign i j s
  step (Step.destroyed i) s = destroy i s

  unfoldable pub run : List Step → Store X → Store X
  unfolding step
  run [] s = s
  run (x ∷ xs) s = run xs (step x s)

  -- How often an address is held by the objects.
  abbrev pub in_objects : ℕ → List X → ℕ
  in_objects c [] = 0
  in_objects c (o ∷ os) = in_pointer c (K.ctx o) + in_objects c os

  abbrev in_found : ℕ → Option X → ℕ
  in_found c none = 0
  in_found c (some o) = in_pointer c (K.ctx o)

  -- In all.
  unfoldable pub held : ℕ → Store X → ℕ
  held c s = in_objects c s.objects + in_freed c s.freed

module _ {X : Type 0} (K : Class X) (empties : (x : X) → K.ctx (K.emptied x) ≡ none) (c : ℕ) where
  nothing_left : (o : X) → in_pointer c (K.ctx (K.emptied o)) ≡ 0
  nothing_left o = ap (in_pointer c) (empties o)

  pub in_objects-set :
      (os : List X) (i : ℕ) (o p : X)
      → get_elem? os i ≡ some o
      → in_objects K c (set os i p) + in_pointer c (K.ctx o)
        ≡ in_objects K c os + in_pointer c (K.ctx p)
  in_objects-set [] i o p e = absurd (cc e)
  in_objects-set (x ∷ os) zero o p e = omega (arith, ap (in_found K c) e)
  in_objects-set (x ∷ os) (suc i) o p e = omega (arith, in_objects-set os i o p e)

  pub in_freed-release :
      (q : Option ℕ) (freed : List ℕ)
      → in_freed c (release q freed) ≡ in_pointer c q + in_freed c freed
  in_freed-release none freed = omega arith
  in_freed-release (some x) freed = refl

  move_construct-held : (j : ℕ) (s : Store X) → held K c (move_construct K j s) ≡ held K c s
  unfolding held move_construct
  move_construct-held j s = elim (Option-cases (get_elem? s.objects j)) [
    | inl e ↦ rw (move_construct, e) refl
    | inr (o, e) ↦
        rw (move_construct, e)
          (omega (arith, nothing_left o, in_objects-set s.objects j o (K.emptied o) e))
  ]

  destroy-held : (i : ℕ) (s : Store X) → held K c (destroy K i s) ≡ held K c s
  unfolding held destroy
  destroy-held i s = elim (Option-cases (get_elem? s.objects i)) [
    | inl e ↦ rw (destroy, e) refl
    | inr (o, e) ↦
        rw (destroy, e)
          (omega (
            arith,
            nothing_left o,
            in_objects-set s.objects i o (K.emptied o) e,
            in_freed-release (K.ctx o) s.freed,
          ))
  ]

  assign_other-held :
      (i j : ℕ) (s : Store X) (t o : X)
      → i ≢ j
      → get_elem? s.objects i ≡ some t
      → get_elem? s.objects j ≡ some o
      → held K c (assign_other K i j s (some t) (some o)) ≡ held K c s
  unfolding held
  assign_other-held i j s t o ne et eo =
      let there = get_elem?-set_ne s.objects i j o ne ∙ eo in
      omega (
        arith,
        nothing_left o,
        in_objects-set s.objects i t o et,
        in_objects-set (set s.objects i o) j o (K.emptied o) there,
        in_freed-release (K.ctx t) s.freed,
      )

  not_same : (i j : ℕ) → (i == j) ≡ false → i ≢ j
  not_same i j e q = ground arith

  move_assign-held : (i j : ℕ) (s : Store X) → held K c (move_assign K i j s) ≡ held K c s
  unfolding move_assign
  move_assign-held i j s = elim (Bool-cases (i == j)) [
    | inl same ↦ rw same refl
    | inr other ↦ elim (Option-cases (get_elem? s.objects i)) [
      | inl e ↦ rw (other, e) refl
      | inr (t, et) ↦ elim (Option-cases (get_elem? s.objects j)) [
        | inl e ↦ rw (other, et, e) refl
        | inr (o, eo) ↦ rw (other, et, eo) (assign_other-held i j s t o (not_same i j other) et eo)
      ]
    ]
  ]

  pub step-held : (x : Step) (s : Store X) → held K c (step K x s) ≡ held K c s
  unfolding step
  step-held (Step.constructed j) s = move_construct-held j s
  step-held (Step.assigned i j) s = move_assign-held i j s
  step-held (Step.destroyed i) s = destroy-held i s

  -- No step changes how often an address is held and freed in all.
  pub run-held : (xs : List Step) (s : Store X) → held K c (run K xs s) ≡ held K c s
  unfolding run
  run-held [] s = refl
  run-held (x ∷ xs) s = run-held xs (step K x s) ∙ step-held x s

  -- What was freed stays freed.
  freed_le-other :
      (i j : ℕ) (s : Store X) (t o : Option X)
      → in_freed c s.freed ≤ in_freed c (assign_other K i j s t o).freed
  freed_le-other i j s none o = omega arith
  freed_le-other i j s (some t) none = omega arith
  freed_le-other i j s (some t) (some o) = omega (arith, in_freed-release (K.ctx t) s.freed)

  freed_le-destroy : (i : ℕ) (s : Store X) → in_freed c s.freed ≤ in_freed c (destroy K i s).freed
  unfolding destroy
  freed_le-destroy i s = elim (Option-cases (get_elem? s.objects i)) [
    | inl e ↦ rw (destroy, e) (omega arith)
    | inr (o, e) ↦ rw (destroy, e) (omega (arith, in_freed-release (K.ctx o) s.freed))
  ]

  freed_le : (x : Step) (s : Store X) → in_freed c s.freed ≤ in_freed c (step K x s).freed
  unfolding step
  freed_le (Step.constructed j) s = ground arith
  freed_le (Step.assigned i j) s = elim (Bool-cases (i == j)) [
    | inl same ↦ rw same (omega arith)
    | inr other ↦ rw other (freed_le-other i j s (get_elem? s.objects i) (get_elem? s.objects j))
  ]
  freed_le (Step.destroyed i) s = freed_le-destroy i s

  -- So no step makes an address be held more often.
  pub in_objects-le :
      (x : Step) (s : Store X) → in_objects K c (step K x s).objects ≤ in_objects K c s.objects
  unfolding held
  in_objects-le x s = omega (arith, step-held x s, freed_le x s)

  -- An object among the others.
  pub in_pointer-le :
      (os : List X) (i : ℕ) (o : X)
      → get_elem? os i ≡ some o
      → in_pointer c (K.ctx o) ≤ in_objects K c os
  in_pointer-le [] i o e = absurd (cc e)
  in_pointer-le (x ∷ os) zero o e = omega (arith, ap (in_found K c) e)
  in_pointer-le (x ∷ os) (suc i) o e = omega (arith, in_pointer-le os i o e)

  -- An assignment onto another object leaves what that one held with no object, if it alone held it.
  pub in_objects-assigned :
      (i j : ℕ) (s : Store X) (t o : X)
      → i ≢ j
      → get_elem? s.objects i ≡ some t
      → get_elem? s.objects j ≡ some o
      → held K c s ≡ 1
      → in_pointer c (K.ctx t) ≡ 1
      → in_objects K c (step K (Step.assigned i j) s).objects ≡ 0
  unfolding step held
  in_objects-assigned i j s t o ne et eo whole here =
      let other : (i == j) ≡ false = ground arith in
      rw (other, et, eo)
        (omega (
          arith,
          assign_other-held i j s t o ne et eo,
          in_freed-release (K.ctx t) s.freed,
          whole,
          here,
        ))
