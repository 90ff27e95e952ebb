-- ===== src/Zstd/Ownership.antt =====
-- Who frees a context: the move constructors, the move assignments and the destructors of the classes
-- zstd_squeezer and zstd_sweller of src/detail/zstd.cpp, over a store of such objects.
use polliwog.Base.{ℕ, ◌≡◌, refl, List, Option, none}
use polliwog.Base.Int.{ℤ}
use polliwog.Format.{Format}
use polliwog.Owners
use polliwog.Owners.{Class, Store, Step, run, held}

-- The members of a zstd_squeezer; `ctx` is the address of the ZSTD_CCtx.
pub record Owner : Type 0 where
  pub ctx : Option ℕ
  pub fmt : Format
  pub level : ℤ

-- o.ctx_ = nullptr
abbrev pub emptied : Owner → Owner
emptied o = record o { ctx = none }

-- if (ctx_) ZSTD_freeCCtx(ctx_)
abbrev pub squeezer : Class Owner
squeezer = record { ctx = λ o. o.ctx; emptied = emptied }

-- The members of a zstd_sweller; `ctx` is the address of the ZSTD_DCtx.
pub record SwellerOwner : Type 0 where
  pub ctx : Option ℕ
  pub fmt : Format

abbrev pub emptied_sweller : SwellerOwner → SwellerOwner
emptied_sweller o = record o { ctx = none }

-- if (ctx_) ZSTD_freeDCtx(ctx_)
abbrev pub sweller : Class SwellerOwner
sweller = record { ctx = λ o. o.ctx; emptied = emptied_sweller }

-- Whatever moves, assignments (those of an object to itself among them) and destructions of squeezers run,
-- the number of objects that hold a context and of calls that freed it stays the same in all. So a context
-- that one object holds and that was not freed is never lost, never shared and never freed twice.
pub run-held :
    (c : ℕ) (xs : List Step) (s : Store Owner)
    → held squeezer c (run squeezer xs s) ≡ held squeezer c s
run-held c xs s = Owners.run-held squeezer (λ o. refl) c xs s

-- The same of swellers.
pub run-held_sweller :
    (c : ℕ) (xs : List Step) (s : Store SwellerOwner)
    → held sweller c (run sweller xs s) ≡ held sweller c s
run-held_sweller c xs s = Owners.run-held sweller (λ o. refl) c xs s
