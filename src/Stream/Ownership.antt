-- ===== src/Stream/Ownership.antt =====
-- Who deletes an implementation: classes compressor and decompressor of include/polliwog/stream.hpp and
-- src/stream.cpp hold a std::unique_ptr<impl>, and have the moves and the destructor of the language. The
-- delete of an impl destroys its variant, and so runs the destructor of the handle in it.
use polliwog.Base.{ℕ, ◌≡◌, refl, List, Option, none}
use polliwog.Owners
use polliwog.Owners.{Class, Store, Step, run, held}

-- An object of either class is its pointer.
abbrev pub compressor : Class (Option ℕ)
compressor = record { ctx = λ o. o; emptied = λ o. none }

abbrev pub decompressor : Class (Option ℕ)
decompressor = record { ctx = λ o. o; emptied = λ o. none }

-- An impl that one compressor holds is deleted at most once, and while it is not deleted it is held.
pub run-held_compressor :
    (c : ℕ) (xs : List Step) (s : Store (Option ℕ))
    → held compressor c (run compressor xs s) ≡ held compressor c s
run-held_compressor c xs s = Owners.run-held compressor (λ o. refl) c xs s

pub run-held_decompressor :
    (c : ℕ) (xs : List Step) (s : Store (Option ℕ))
    → held decompressor c (run decompressor xs s) ≡ held decompressor c s
run-held_decompressor c xs s = Owners.run-held decompressor (λ o. refl) c xs s
