-- ===== src/Promise/Tests.antt =====
-- A promise of include/sl/exec/algo/make/contract.hpp that is dropped.
use serious_execution_librar.Prelude.{ℕ, ◌≡◌, refl}
use serious_execution_librar.Promise.{new_promise, finalize}

deleted_once : (finalize (new_promise {V = ℕ} {E = ℕ})).deletes ≡ 1
unfolding finalize new_promise
deleted_once = refl
