-- ===== src/Middleware/Tests.antt =====
-- Runs of the middleware at concrete inputs.
use meterkit.Prelude.{
  String, ◌≡◌, ◌↔◌, refl, true, false, Option, none, some, List, [], ◌∷◌, mem, Distinct, All,
}
use meterkit.Policies.Tests.{platform}
use meterkit.Products.Tests.{product}
use meterkit.Payments.{parse_payment}
use meterkit.Payments.Memory.{MemoryStore}
use meterkit.Payments.Memory
use meterkit.Payments.Stores.{memory_payment_store, memory_payment_store-IsStore}
use meterkit.Middleware.{
  Exchange, Settlement, PaymentRequirements, next, payment_required, payment_replayed,
  malformed_payment, handle, complete, prepare, requirements, Event, arrives, resumes, run, step,
  start, to_record,
}
use meterkit.Middleware.Serving.{run-serves_once}
use meterkit.Middleware.Handling.{IsAccepted, handle-next_iff}

abbrev settled : String → PaymentRequirements → Option Settlement
settled header r =
    some (record { success = true; transaction = some "sig"; payer = some "payer"; network = none })

abbrev exchange : Exchange
exchange = record {
  header = some "0123456789abcdef";
  uuid = "u1";
  now = 5;
  settle = settled;
  on_settled = λ p. true;
}

abbrev empty : MemoryStore
empty = record { records = []; authorizations = [] }

abbrev paid : MemoryStore
paid = record { records = to_record product exchange "sig" "payer" ∷ []; authorizations = [] }

middleware_code : Unit {0}
unfolding handle complete prepare requirements parse_payment memory_payment_store Memory.save
    Memory.has run step
middleware_code = tt

-- A payment is served once; without a header, with a short one, or on another network it is not.
handle_test :
    (handle platform product memory_payment_store exchange empty ≡ (paid, next "sig" "payer"))
    × (handle platform product memory_payment_store exchange paid ≡ (paid, payment_replayed))
    × (handle platform product memory_payment_store (record exchange { header = some "" }) empty
        ≡ (empty, payment_required))
    × (handle platform product memory_payment_store
          (record exchange { header = some "short" })
          empty
        ≡ (empty, malformed_payment))
    × (handle platform product memory_payment_store
          (record exchange { on_settled = λ p. false })
          empty
        ≡ (paid, malformed_payment))
unfolding middleware_code
handle_test = (refl, refl, refl, refl, refl)

-- Two requests with one payment, both past `has` before either saves.
abbrev overlap : List Event
overlap = arrives exchange ∷ arrives exchange ∷ resumes 1 ∷ resumes 0 ∷ []

overlap_test : (run platform product memory_payment_store (start empty) overlap).served ≡ "sig" ∷ []
unfolding middleware_code
overlap_test = refl

run-serves_once_example :
    Distinct (run platform product memory_payment_store (start empty) overlap).served
    × All
        (λ k.
          mem k (
            memory_payment_store-IsStore.signatures
              (run platform product memory_payment_store (start empty) overlap).store)
          ≡ true)
        (run platform product memory_payment_store (start empty) overlap).served
    × All
        (λ k. mem k (memory_payment_store-IsStore.signatures empty) ≡ false)
        (run platform product memory_payment_store (start empty) overlap).served
run-serves_once_example =
    run-serves_once platform product memory_payment_store memory_payment_store-IsStore empty overlap

handle-next_iff_example :
    (handle platform product memory_payment_store exchange empty ≡ (paid, next "sig" "payer"))
    ↔ IsAccepted platform product memory_payment_store exchange empty paid "sig" "payer"
handle-next_iff_example =
    handle-next_iff platform product memory_payment_store exchange empty paid "sig" "payer"

abbrev unrecorded : Exchange
unrecorded = record exchange { on_settled = λ p. false }
