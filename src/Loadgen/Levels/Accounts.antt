-- ===== src/Loadgen/Levels/Accounts.antt =====
-- No failure is lost between the results, the summary, the errors and the exit code.
use inference_box.Prelude.{
  ℕ, ◌+◌, ◌≤◌, ◌≡◌, refl, ◌↔◌, ◌⊎◌, String, true, List, [], ◌∷◌, All, Option, none, some, length,
  str_eq, arith, inl, inr, Bool-cases,
}
use inference_box.Dict.{Dict, get_or, get?, set, values}
use inference_box.Loadgen.Requests.{RequestResult}
use inference_box.Loadgen.Levels.{
  LevelSummary, succeeded, sum, error_name, one_more, counted_errors, summarise, total_failures,
  exit_code,
}

abbrev worth : Option ℕ → ℕ
worth none = 0
worth (some v) = v

get_or-worth : (o : Option ℕ) (k : String) (d : Dict ℕ) → get? k d ≡ o → get_or k 0 d ≡ worth o
unfolding get_or
get_or-worth none k d e = rw (get_or, e) refl
get_or-worth (some v) k d e = rw (get_or, e) refl

-- An assignment replaces the value of its key, which counts 0 where the key is missing.
sum-set :
    (k : String) (m : ℕ) (d : Dict ℕ)
    → sum (values (set k m d)) + worth (get? k d) ≡ sum (values d) + m
unfolding set get?
sum-set k m [] = omega arith
sum-set k m ((j, v) ∷ d) = elim (Bool-cases (str_eq j k)) [
  | inl e ↦ rw e (omega arith)
  | inr e ↦ rw e (omega (arith, sum-set k m d))
]

sum-one_more : (k : String) (d : Dict ℕ) → sum (values (one_more k d)) ≡ sum (values d) + 1
sum-one_more k d = omega (arith, sum-set k (get_or k 0 d + 1) d, get_or-worth (get? k d) k d refl)

length-succeeded : (results : List RequestResult) → length (succeeded results) ≤ length results
length-succeeded [] = omega arith
length-succeeded (r ∷ rs) = ground (arith, length-succeeded rs)

sum-counted_errors :
    (errors : Dict ℕ) (results : List RequestResult)
    → sum (values (counted_errors errors results)) + length (succeeded results)
      ≡ sum (values errors) + length results
unfolding counted_errors
sum-counted_errors errors [] = omega arith
sum-counted_errors errors (r ∷ rs) = elim (Bool-cases r.is_ok) [
  | inl e ↦ rw e (omega (arith, sum-counted_errors errors rs))
  | inr e ↦ rw e (
      omega (
        arith,
        sum-counted_errors (one_more (error_name r.error) errors) rs,
        sum-one_more (error_name r.error) errors,
      ))
]

-- A level's requests are its successes and its failures, and its errors are counted once for each
-- failure and under some name.
pub summarise-accounts :
    (level wall : ℕ) (results : List RequestResult)
    → ((summarise level wall results).requests
        ≡ (summarise level wall results).failures + length (succeeded results))
      × (sum (values (summarise level wall results).errors)
          ≡ (summarise level wall results).failures)
unfolding summarise
summarise-accounts level wall results =
    let l = length-succeeded results in
    let c = sum-counted_errors [] results in (omega arith, omega arith)

-- A level, the time it took and its results.
abbrev pub Ran : Type 0
Ran = ℕ × ℕ × List RequestResult

abbrev pub summaries : List Ran → List LevelSummary
summaries [] = []
summaries ((level, wall, results) ∷ runs) = summarise level wall results ∷ summaries runs

abbrev pub AllOk : Ran → Type 0
AllOk (level, wall, results) = All (λ r. r.is_ok ≡ true) results

succeeded-All_iff :
    (results : List RequestResult)
    → (length (succeeded results) ≡ length results) ↔ All (λ r. r.is_ok ≡ true) results
succeeded-All_iff [] = (λ e. tt, λ h. refl)
succeeded-All_iff (r ∷ rs) = ground (arith, succeeded-All_iff rs, length-succeeded rs)

no_failures_iff : (runs : List Ran) → (total_failures (summaries runs) ≡ 0) ↔ All AllOk runs
unfolding summarise
no_failures_iff [] = (λ e. tt, λ h. refl)
no_failures_iff ((level, wall, results) ∷ runs) =
    let l = length-succeeded results in
    let (all_ok, same) = succeeded-All_iff results in
    let (rest_ok, none_left) = no_failures_iff runs in
    (
      λ e. (all_ok (omega (arith, e, l)), rest_ok (omega (arith, e))),
      λ (h, hs). omega (arith, same h, none_left hs),
    )

-- The program exits with 0 exactly if every request of every level succeeded, and with 1 otherwise.
pub exit_code-summaries_iff :
    (runs : List Ran)
    → ((exit_code (summaries runs) ≡ 0) ↔ All AllOk runs)
      × ((exit_code (summaries runs) ≡ 0) ⊎ (exit_code (summaries runs) ≡ 1))
unfolding exit_code
exit_code-summaries_iff runs =
    let (all_ok, none_left) = no_failures_iff runs in
    ((λ e. all_ok (ground arith), λ h. (let z = none_left h in ground arith)), ground arith)
