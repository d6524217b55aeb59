-- ===== src/Challenges/Tests.antt =====
-- Runs of the wallet challenges at concrete inputs, over a toy platform.
use meterkit.Prelude.{String, ◌≡◌, refl, true, false, none, some, List, [], ◌∷◌, arith}
use meterkit.Platform.{codes}
use meterkit.Challenges.{
  Challenge, too_many_active_challenges, Crypto, IssueInput, memory_save, memory_store, table_save,
  table_store, active_of, consume_entry, to_challenge, challenge_message, issue, verify, accepts,
}
use meterkit.Challenges.Verifying.{IsVerified, verify-IsVerified}
use meterkit.Challenges.Once
use meterkit.Challenges.Once.{ChallengeCall, memory_store-IsSingleUse, run, verify-once}
use meterkit.Challenges.Issuing.{answer_to, issue-verify}

-- Every text is its own digest and encoding, and every signature of the text "signed" is right.
abbrev pub toy : Crypto
toy = record {
  sha256_hex = λ s. s;
  from_base64 = codes;
  from_utf8 = codes;
  from_base58 = λ s. some (codes s);
  verify = λ key message signature. some true;
  to_iso = λ t. "later";
}

abbrev wallet : String
wallet = "WaaaetWaaaetWaaaetWaaaetWaaaetWa"

abbrev asked : IssueInput
asked = record {
  wallet = wallet;
  request_hash = "hash";
  idempotency_key = "key";
  audience = "meterkit";
  method = "POST";
  path = "/products";
}

abbrev challenge : Challenge
challenge = to_challenge toy asked "n1" 7

abbrev signed : String
signed = challenge_message toy asked "n1" 300_007

challenge_code : Unit {0}
unfolding issue verify memory_store table_store memory_save table_save consume_entry active_of
challenge_code = tt

abbrev issued : List Challenge
issued = challenge ∷ []

issues : issue toy memory_store 1 asked "n1" 7 [] ≡ (issued, none)
unfolding challenge_code
issues = refl

-- One challenge is the most that this wallet may have.
bound_test :
    (issue toy memory_store 1 asked "n2" 8 issued ≡ (issued, some too_many_active_challenges))
    × (issue toy table_store 1 asked "n2" 8 issued ≡ (issued, some too_many_active_challenges))
unfolding challenge_code
bound_test = (refl, refl)

issue-verify_example :
    (verify toy memory_store 1 (answer_to toy asked "n1" signed "signature") 8 issued).1 ≡ true
issue-verify_example =
    issue-verify toy 1 asked "n1" signed "signature" (codes wallet) 7 8 [] issued issues
      (omega arith) refl refl refl refl

-- Another challenge is issued and used between the two.
abbrev others : List ChallengeCall
others =
    Once.issues asked "n2" 8 ∷ Once.verifies (answer_to toy asked "n2" signed "signature") 9 ∷ []

verify-once_example :
    (verify toy memory_store 2 (answer_to toy asked "n1" signed "signature") 9 (
      run toy memory_store 2 others
        (verify toy memory_store 2 (answer_to toy asked "n1" signed "other") 8 issued).0)).1
    ≡ false
verify-once_example =
    verify-once toy memory_store 2 memory_store-IsSingleUse "n1"
      (answer_to toy asked "n1" signed "other") (answer_to toy asked "n1" signed "signature") 8 9
      others issued refl refl refl

-- The table is a store of single use too.
table_once_test : (verify toy table_store 1 (answer_to toy asked "n1" signed "s") 9 []).1 ≡ false
unfolding challenge_code
table_once_test = refl

verifies :
    (verify toy memory_store 1 (answer_to toy asked "n1" signed "signature") 8 issued).1 ≡ true
unfolding challenge_code accepts to_challenge challenge_message
verifies = refl

verify-IsVerified_example :
    (c : Challenge) × ((consume_entry "n1" issued).1 ≡ some c)
    × IsVerified toy (answer_to toy asked "n1" signed "signature") 8 c
unfolding memory_store
verify-IsVerified_example =
    verify-IsVerified toy memory_store 1 (answer_to toy asked "n1" signed "signature") 8 issued
      verifies
