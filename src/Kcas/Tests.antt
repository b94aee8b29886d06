-- ===== src/Kcas/Tests.antt =====
-- Operations on two words of src/thread/detail/multiword_kcas.cpp, and its theorems at them.
use serious_execution_librar.Prelude.{
  ℕ, zero, suc, ◌+◌, ◌≡◌, refl, true, false, some, List, [], ◌∷◌, update, get_elem?, arith,
}
use serious_execution_librar.Kcas.{
  Thread, Reliable, Word_eq, Pointer, Word, value, kcas_flagged, state_undecided, KcasArg, Memory,
  Ended, finished, is_undecided, dcss, kcas_help, kcas, replace,
}
use serious_execution_librar.Kcas.Marking.{Untouched, Distinct}
use serious_execution_librar.Kcas.Helping.{kcas_lem}

abbrev two : List KcasArg
two = record { a = 0; e = 5; n = 7 } ∷ record { a = 1; e = 6; n = 8 } ∷ []

abbrev before : ℕ → ℕ
before a = a + 5

-- Thread 0, whose weak compare-exchanges do not fail spuriously.
abbrev thread : Thread
thread = record { pid = 0; fails = λ a e m. false }

instance abbrev thread-Reliable : Reliable thread
thread-Reliable = record { never = λ a e m. refl }

-- The first weak compare-exchange of a dcss fails spuriously.
abbrev unlucky : Thread
unlucky = record { pid = 0; fails = λ a e m. Word_eq e (value 5) }

abbrev its : Pointer
its = record { pid = 1; sequence = 2 }

-- Thread 1 has marked the first word and stopped. Thread 0 helps.
abbrev stalled : Memory
stalled = record {
  words = update (λ a. value (before a)) 0 (kcas_flagged its);
  kcas_pool = λ pid. record { state = state_undecided; sequence = 2; args = two };
  dcss_pool = λ pid. record {
    sequence = 0;
    immutables = record { a1 = is_undecided its; a2 = 0; e2 = value 0; n2 = value 0 };
  };
}

abbrev at_rest : Memory
at_rest = record stalled { words = λ a. value (before a) }

two-Distinct : Distinct two
two-Distinct zero zero x y e f q = refl
two-Distinct zero (suc zero) x y e f q = absurd (ground (arith, e, f, q))
two-Distinct (suc zero) zero x y e f q = absurd (ground (arith, e, f, q))
two-Distinct (suc zero) (suc zero) x y e f q = refl
two-Distinct (suc (suc j)) k x y e f q = absurd (ground (arith, e))
two-Distinct zero (suc (suc k)) x y e f q = absurd (ground (arith, f))
two-Distinct (suc zero) (suc (suc k)) x y e f q = absurd (ground (arith, f))

kcas_lem_example :
    (t : Memory) × (kcas thread 5 two at_rest ≡ (finished true, t))
    × ((j : ℕ) (x : KcasArg) → get_elem? two j ≡ some x → t.words x.a ≡ value x.n)
    × Untouched two at_rest t
kcas_lem_example = kcas_lem thread two before two-Distinct 5 at_rest (omega arith) (λ j x e. refl)

-- One word twice, with different expected values: the second is not compared.
abbrev twice : List KcasArg
twice = record { a = 0; e = 5; n = 7 } ∷ record { a = 0; e = 6; n = 8 } ∷ []

same_word_twice : (kcas thread 5 twice at_rest).0 ≡ finished true
unfolding kcas kcas_help serious_execution_librar.Kcas.mark serious_execution_librar.Kcas.mark_round
    dcss serious_execution_librar.Kcas.conclude replace serious_execution_librar.Kcas.replace_round
same_word_twice = refl

-- The kcas then reports success although the first word was not changed.
spurious :
    ((kcas unlucky 5 two at_rest).0 ≡ finished true)
    × ((kcas unlucky 5 two at_rest).1.words 0 ≡ value 5)
unfolding kcas kcas_help serious_execution_librar.Kcas.mark serious_execution_librar.Kcas.mark_round
    dcss serious_execution_librar.Kcas.conclude replace serious_execution_librar.Kcas.replace_round
spurious = (refl, refl)
