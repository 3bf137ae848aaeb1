-- ===== src/Evaluation/Behavior.antt =====
-- `holdout_behavior_digest` of planrace/evaluation_v2.py: the observed plans without the names of
-- the validator's indexes. Word characters outside ASCII are a parameter.
use Prim.Native.String.{◌++◌ as concat}
use Prim.Native.Char.{code}
use planrace_subnet.Prelude.{
  ℕ, zero, suc, String, Bool, true, false, not, ◌&&◌, List, [], ◌∷◌, map, Result, all, ltb, length,
  list_beq, nat_eq, take, drop, ◌==◌, if◌then◌else◌,
}
use planrace_subnet.Floats.{Floats}
use planrace_subnet.Digest.{DigestError, domain_separated_digest}
use planrace_subnet.Digest.Payload.{codes, str, number, array, object}
use planrace_subnet.Models.Texts.{is_word, is_lower_hex}
use planrace_subnet.Scoring.Benchmark.{BenchmarkScore}
use planrace_subnet.Sandbox.{SandboxResultV2}

module _ (unicode_word : ℕ → Bool) where
  -- `\w`
  pub is_word_character : ℕ → Bool
  is_word_character c = if ltb c 128 then is_word c else unicode_word c

  ends_word : List ℕ → Bool
  ends_word [] = true
  ends_word (c ∷ cs) = not (is_word_character c)

  -- `planrace_[0-9a-f]{20}\b`
  pub is_index_name : List ℕ → Bool
  unfolding ends_word is_word_character
  is_index_name s =
      list_beq (take 9 s) (codes "planrace_")
      && length (take 20 (drop 9 s)) == 20
      && all is_lower_hex (take 20 (drop 9 s))
      && ends_word (drop 29 s)

  -- The substitution from a position on: whether a word character stands in front of it, and how
  -- many characters of the last match are left.
  pub substitute : Bool → ℕ → String → String
  unfolding is_index_name
  substitute inside left String.[] = ""
  substitute inside (suc left) (String.◌∷◌ c s) = substitute true left s
  substitute inside zero (String.◌∷◌ c s) =
      let kept = String.◌∷◌ c (substitute (is_word_character (code c)) 0 s) in
      let replaced = concat "planrace_<candidate>" (substitute true 28 s) in
      if not inside && is_index_name (codes (String.◌∷◌ c s)) then replaced else kept

  -- `_VALIDATOR_INDEX_NAME.sub("planrace_<candidate>", detail)`
  unfoldable pub without_index_names : String → String
  unfolding substitute
  without_index_names = substitute false 0

module _ (F : Floats) where
  pub record FixtureEvaluationV2 : Type 0 where
    pub fixture_id : String
    pub result : SandboxResultV2 F
    pub score : BenchmarkScore F

  unfoldable pub holdout_behavior_digest :
      (ℕ → Bool) → (List ℕ → String) → List FixtureEvaluationV2 → Result DigestError String
  holdout_behavior_digest unicode_word sha256 evaluations =
      domain_separated_digest sha256 "planrace/2:holdout-plan-behavior" (
        object (
          (
            "plans",
            array (
                map
                  (λ e. object (
                    ("fixture_id", str e.fixture_id)
                    ∷ (
                      "candidate_plan",
                      array (
                          map (λ d. str (without_index_names unicode_word d))
                            e.result.candidate_plan),
                    )
                    ∷ ("used_index_count", number (length e.result.used_index_names))
                    ∷ []))
                  evaluations),
          )
          ∷ []))
