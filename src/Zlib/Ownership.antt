-- ===== src/Zlib/Ownership.antt =====
-- Who ends a stream: classes zlib_squeezer and zlib_sweller of src/detail/zlib.hpp and src/detail/zlib.cpp
-- hold a std::unique_ptr<z_stream_s>, have the moves of the language, and end the stream in the destructor.
-- An address stands for a z_stream_s and for the library's own state that belongs to it.
use polliwog.Base.{
  ◌+◌, Bool-cases, ◌==◌, true, sym, ap, ◌∙◌, Every, ◌⊎◌, ℕ, ◌≡◌, ◌≢◌, refl, List, [], ◌∷◌, Option,
  none, some, get_elem?, arith, Option-cases, inl, inr,
}
use polliwog.Owners
use polliwog.Owners.{
  Class, Step, assign_other, release, in_pointer, in_freed, in_objects, held, in_objects-le,
  in_objects-assigned, in_pointer-le, step-held, in_freed-release,
}

-- An object of either class is its pointer. What is freed through it is the z_stream_s, by `delete`.
abbrev pub handle : Class (Option ℕ)
handle = record { ctx = λ o. o; emptied = λ o. none }

-- The objects, the z_stream_s that were deleted, and those that deflateEnd or inflateEnd was called with.
pub record Store : Type 0 where
  pub base : Owners.Store (Option ℕ)
  pub ended : List ℕ

-- if (stream_) deflateEnd(stream_.get())
abbrev pub ended_by : Option (Option ℕ) → List ℕ → List ℕ
ended_by none ended = ended
ended_by (some o) ended = release o ended

-- The moves are those of the pointer; the destructor ends the stream before the pointer deletes it.
unfoldable pub step : Step → Store → Store
step (Step.constructed j) s = record s { base = Owners.step handle (Step.constructed j) s.base }
step (Step.assigned i j) s = record s { base = Owners.step handle (Step.assigned i j) s.base }
step (Step.destroyed i) s = record {
  base = Owners.step handle (Step.destroyed i) s.base;
  ended = ended_by (get_elem? s.base.objects i) s.ended;
}

unfoldable pub run : List Step → Store → Store
unfolding step
run [] s = s
run (x ∷ xs) s = run xs (step x s)

module _ (c : ℕ) where
  -- No object holds the stream, and it was not ended.
  abbrev Gone : Store → Type 0
  Gone s = (in_objects handle c s.base.objects ≡ 0) × (in_freed c s.ended ≡ 0)

  ended_by-none :
      (os : List (Option ℕ)) (i : ℕ) (ended : List ℕ)
      → in_objects handle c os ≡ 0
      → in_freed c ended ≡ 0
      → in_freed c (ended_by (get_elem? os i) ended) ≡ 0
  ended_by-none os i ended none_held none_ended = elim (Option-cases (get_elem? os i)) [
    | inl e ↦ rw e none_ended
    | inr (o, e) ↦ rw e (
        omega (
          arith,
          none_held,
          none_ended,
          in_freed-release handle (λ o. refl) c o ended,
          in_pointer-le handle (λ o. refl) c os i o e,
        ))
  ]

  step-Gone : (x : Step) (s : Store) → Gone s → Gone (step x s)
  unfolding step
  step-Gone (Step.constructed j) s (h, e) =
      (omega (arith, h, in_objects-le handle (λ o. refl) c (Step.constructed j) s.base), e)
  step-Gone (Step.assigned i j) s (h, e) =
      (omega (arith, h, in_objects-le handle (λ o. refl) c (Step.assigned i j) s.base), e)
  step-Gone (Step.destroyed i) s (h, e) = (
    omega (arith, h, in_objects-le handle (λ o. refl) c (Step.destroyed i) s.base),
    ended_by-none s.base.objects i s.ended h e,
  )

  run-Gone : (xs : List Step) (s : Store) → Gone s → Gone (run xs s)
  unfolding run
  run-Gone [] s g = g
  run-Gone (x ∷ xs) s g = run-Gone xs (step x s) (step-Gone x s g)

  -- An assignment of a handle onto another one that holds a stream loses the stream's state: if no other
  -- object holds it and it was not ended yet, then whatever moves, assignments and destructions follow, it
  -- is never ended, and no object holds it any more.
  pub assigned-leaks :
      (i j : ℕ) (s : Store) (source : Option ℕ) (xs : List Step)
      → i ≢ j
      → get_elem? s.base.objects i ≡ some (some c)
      → get_elem? s.base.objects j ≡ some source
      → held handle c s.base ≡ 1
      → in_freed c s.ended ≡ 0
      → let later = run xs (step (Step.assigned i j) s) in
        (in_freed c later.ended ≡ 0) × (in_objects handle c later.base.objects ≡ 0)
  unfolding step
  assigned-leaks i j s source xs ne target there whole not_ended =
      let self : in_pointer c (some c) ≡ 1 = ground arith in
      let none_held =
        in_objects-assigned handle (λ o. refl) c i j s.base (some c) source ne target there whole
          self in
      let g = run-Gone xs (step (Step.assigned i j) s) (none_held, not_ended) in (g.1, g.0)

-- A step that assigns no handle onto another one that holds a stream.
abbrev pub Gentle : Step → Store → Type 0
Gentle (Step.constructed j) s = Unit {0}
Gentle (Step.assigned i j) s = (i ≡ j) ⊎ Every (get_elem? s.base.objects i) (λ p. p ≡ none)
Gentle (Step.destroyed i) s = Unit {0}

-- A history of such steps.
pub data Gentles (s₀ : Store) : Store → Type 0 where
  start : Gentles s₀ s₀
  next : (s : Store) (x : Step) → Gentles s₀ s → Gentle x s → Gentles s₀ (step x s)

-- Every z_stream_s was ended before it was deleted.
abbrev Balanced : Store → Type 0
Balanced s = s.ended ≡ s.base.freed

-- What each step deletes.
freed-constructed :
    (j : ℕ) (s : Owners.Store (Option ℕ))
    → (Owners.step handle (Step.constructed j) s).freed ≡ s.freed
unfolding Owners.step
freed-constructed j s = ground arith

freed-destroyed :
    (i : ℕ) (s : Owners.Store (Option ℕ))
    → (Owners.step handle (Step.destroyed i) s).freed ≡ ended_by (get_elem? s.objects i) s.freed
unfolding Owners.step
freed-destroyed i s = ground arith

freed-assign_other :
    (i j : ℕ) (s : Owners.Store (Option ℕ)) (t o : Option (Option ℕ))
    → Every t (λ p. p ≡ none)
    → (assign_other handle i j s t o).freed ≡ s.freed
freed-assign_other i j s none o empty = refl
freed-assign_other i j s (some t) none empty = refl
freed-assign_other i j s (some t) (some o) empty = rw empty refl

freed-assigned :
    (i j : ℕ) (s : Owners.Store (Option ℕ))
    → (i ≡ j) ⊎ Every (get_elem? s.objects i) (λ p. p ≡ none)
    → (Owners.step handle (Step.assigned i j) s).freed ≡ s.freed
unfolding Owners.step
freed-assigned i j s (inl same) = let e : (i == j) ≡ true = ground (arith, same) in rw e refl
freed-assigned i j s (inr empty) = elim (Bool-cases (i == j)) [
  | inl same ↦ rw same refl
  | inr other ↦
      rw other (freed-assign_other i j s (get_elem? s.objects i) (get_elem? s.objects j) empty)
]

step-Balanced : (x : Step) (s : Store) → Gentle x s → Balanced s → Balanced (step x s)
unfolding step
step-Balanced (Step.constructed j) s g b = b ∙ sym (freed-constructed j s.base)
step-Balanced (Step.assigned i j) s g b = b ∙ sym (freed-assigned i j s.base g)
step-Balanced (Step.destroyed i) s g b =
    ap (ended_by (get_elem? s.base.objects i)) b ∙ sym (freed-destroyed i s.base)

step-base : (x : Step) (s : Store) → (step x s).base ≡ Owners.step handle x s.base
unfolding step
step-base (Step.constructed j) s = refl
step-base (Step.assigned i j) s = refl
step-base (Step.destroyed i) s = refl

Gentles-ended : (s₀ s : Store) → Balanced s₀ → Gentles s₀ s → Balanced s
Gentles-ended s₀ _ b Gentles.start = b
Gentles-ended s₀ _ b (Gentles.next s x t g) = step-Balanced x s g (Gentles-ended s₀ s b t)

Gentles-held : (c : ℕ) (s₀ s : Store) → Gentles s₀ s → held handle c s.base ≡ held handle c s₀.base
Gentles-held c s₀ _ Gentles.start = refl
Gentles-held c s₀ _ (Gentles.next s x t g) =
    ap (held handle c) (step-base x s)
    ∙ step-held handle (λ o. refl) c x s.base
    ∙ Gentles-held c s₀ s t

-- As long as no handle is assigned onto another one that holds a stream, the destructors end exactly the
-- streams that are deleted, in the same order; and for every stream, the number of handles that hold it and
-- of calls that ended it stays the same in all. So a stream that one handle held at the start, and that was
-- not ended, is held by one handle and not ended, or ended once and held by none.
pub Gentles-Balanced :
    (s₀ s : Store)
    → s₀.ended ≡ s₀.base.freed
    → Gentles s₀ s
    → (s.ended ≡ s.base.freed)
      × ((c : ℕ)
          → in_objects handle c s.base.objects + in_freed c s.ended
            ≡ in_objects handle c s₀.base.objects + in_freed c s₀.ended)
unfolding held
Gentles-Balanced s₀ s b t =
    let e = Gentles-ended s₀ s b t in
    (e, λ c. omega (arith, ap (in_freed c) e, ap (in_freed c) b, Gentles-held c s₀ s t))
