-- ===== src/Tests/Backends.antt =====
-- The two backends over the small libraries.
use polliwog.Base.{ℕ, ◌+◌, refl, arith, ◌≡◌, List, [], ◌∷◌, some}
use polliwog.Base.Int.{pos}
use polliwog.Format.{Format}
use polliwog.Owners
use polliwog.Owners.{Step, run, held, in_freed, in_objects}
use polliwog.Zstd.Ownership.{Owner, squeezer, run-held}
use polliwog.Zlib.Ownership as ZlibOwnership
use polliwog.Zlib.Ownership.{handle, assigned-leaks, Gentles, Gentles-Balanced}
use polliwog.Backend.Contract.{IsContract}
use polliwog.Zlib.Facade.{zlib_backend}
use polliwog.Zlib.Contract.{IsCounted, zlib_backend-IsContract}
use polliwog.Zstd.Squeezer as ZstdSqueezer
use polliwog.Zstd.Facade.{zstd_backend}
use polliwog.Zstd.Contract.{zstd_backend-IsContract}
use polliwog.Toy.Zlib as ToyZlib
use polliwog.Toy.ZlibAccounts.{toy-ZlibLaws}
use polliwog.Toy.Zstd as ToyZstd
use polliwog.Toy.ZstdLawful.{toy-ZstdLaws}

zlib_backend-IsContract_example : IsContract (zlib_backend ToyZlib.toy) (λ h. IsCounted h.stream)
zlib_backend-IsContract_example = zlib_backend-IsContract ToyZlib.toy toy-ZlibLaws

zstd_backend-IsContract_example : IsContract (zstd_backend ToyZstd.toy) (λ h. Unit {0})
zstd_backend-IsContract_example = zstd_backend-IsContract ToyZstd.toy toy-ZstdLaws

-- Two objects; the second is moved to a third, the first is assigned from itself and then from the third,
-- and the first is destroyed.
abbrev two_owners : Owners.Store Owner
two_owners = record {
  objects =
      record { ctx = some 5; fmt = Format.zstd; level = pos 3 }
      ∷ record { ctx = some 6; fmt = Format.zstd; level = pos 9 }
      ∷ [];
  freed = [];
}

abbrev moves : List Step
moves = Step.constructed 1 ∷ Step.assigned 1 1 ∷ Step.assigned 1 0 ∷ Step.destroyed 1 ∷ []

run-held_example : held squeezer 5 (run squeezer moves two_owners) ≡ held squeezer 5 two_owners
run-held_example = run-held 5 moves two_owners

-- The first handle holds a stream and is assigned from the second; both are destroyed later.
abbrev two_streams : ZlibOwnership.Store
two_streams = record { base = record { objects = some 5 ∷ some 6 ∷ []; freed = [] }; ended = [] }

streams_held : held handle 5 two_streams.base ≡ 1
unfolding held
streams_held = refl

assigned-leaks_example :
    let later =
      ZlibOwnership.run
        (Step.destroyed 0 ∷ Step.destroyed 1 ∷ [])
        (ZlibOwnership.step (Step.assigned 0 1) two_streams) in
    (in_freed 5 later.ended ≡ 0) × (in_objects handle 5 later.base.objects ≡ 0)
assigned-leaks_example =
    assigned-leaks 5 0 1 two_streams (some 6) (Step.destroyed 0 ∷ Step.destroyed 1 ∷ [])
      (λ e. absurd (omega (arith, e))) refl refl streams_held refl

-- The second handle is moved to a new one, which is destroyed.
Gentles-Balanced_example :
    let moved = ZlibOwnership.step (Step.constructed 1) two_streams in
    let later = ZlibOwnership.step (Step.destroyed 0) moved in
    (later.ended ≡ later.base.freed)
    × ((c : ℕ)
        → in_objects handle c later.base.objects + in_freed c later.ended
          ≡ in_objects handle c two_streams.base.objects + in_freed c two_streams.ended)
Gentles-Balanced_example =
    Gentles-Balanced two_streams
      (ZlibOwnership.step (Step.destroyed 0) (ZlibOwnership.step (Step.constructed 1) two_streams))
      refl
      (Gentles.next _ (Step.destroyed 0)
        (Gentles.next two_streams (Step.constructed 1) Gentles.start tt) tt)
