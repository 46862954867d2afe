-- ===== src/LambdaService/Events/Processor/Fate.antt =====
-- services/lambda-service/internal/events/processor.go and rabbitmq.go: what becomes of an event.
use mini_lambda.Common.{
  ◌≡◌, refl, String, Bool, true, false, Option, none, some, List, [], ◌∷◌, ◌⊎◌, inl, inr, All,
  if◌then◌else◌, arith, Bool-cases, ap, ◌∙◌,
}
use mini_lambda.Shared.Functions.{Function}
use mini_lambda.Common.Int.{ℤ, leb_ℤ, ltb_ℤ}
use mini_lambda.LambdaService.Events.{Event, DeadLetterItem}
use mini_lambda.LambdaService.Events.Processor.{
  Answers, Records, ExecutionResult, outcome, process, handle_error, handle_message, handle_all,
  succeed, dead_letter_of, log_audit, Disposition, ack, requeue, nack,
}

-- The error that an event meets, if it meets one.
abbrev pub error_in {ℓ} : {A B : Type ℓ} → String ⊎ A → String ⊎ B → Option String
error_in (inl err) executed = some err
error_in (inr f) (inl err) = some err
error_in (inr f) (inr result) = none

abbrev pub error_of : Answers → Option String
error_of a = error_in a.got a.executed

abbrev pub is_requeue : Disposition → Bool
is_requeue ack = false
is_requeue requeue = true
is_requeue nack = false

abbrev or_empty : Option String → String
or_empty none = ""
or_empty (some s) = s

pub outcome-error :
    (a : Answers) (event : Event) (err : String) (r : Records) (got : String ⊎ Function)
    (executed : String ⊎ ExecutionResult)
    → error_in got executed ≡ some err
    → outcome a event got executed r ≡ handle_error a event err r
unfolding outcome
outcome-error a event err r (inl e) executed h = rw (ap or_empty h)
outcome-error a event err r (inr f) (inl e) h = rw (ap or_empty h)
outcome-error a event err r (inr f) (inr result) h = absurd (ground arith)

pub process-error :
    (a : Answers) (event : Event) (err : String) (r : Records)
    → error_of a ≡ some err
    → process a event r ≡ handle_error a event err r
unfolding process
process-error a event err r h = outcome-error a event err r a.got a.executed h

-- The dead letters and the disposition that a failing event gives.
abbrev pub fate : Answers → Event → String → List DeadLetterItem → List DeadLetterItem × Disposition
fate a event err dead =
    if ltb_ℤ event.retry_count event.max_retries
    then (dead, ack)
    else if a.pushed
    then (dead_letter_of event err a.ended ∷ dead, ack)
    else (dead, nack)

pub leb_of_ltb : (a b : ℤ) → ltb_ℤ a b ≡ true → leb_ℤ b a ≡ false
leb_of_ltb a b h = ground arith

pub leb_of_not_ltb : (a b : ℤ) → ltb_ℤ a b ≡ false → leb_ℤ b a ≡ true
leb_of_not_ltb a b h = ground arith

-- An event that fails while it has retries left is acknowledged to the broker, with no dead
-- letter; one without retries left becomes one dead letter and is acknowledged, or, if the dead
-- letter cannot be pushed, is nacked without requeueing, which hands it to the queue's dead-letter
-- exchange. No failing event leaves an execution.
pub failing_fate :
    (a : Answers) (event : Event) (err : String) (r : Records)
    → error_of a ≡ some err
    → let (r', told) = handle_message a (some event) r in
      ((r'.dead_letters, told) ≡ fate a event err r.dead_letters) × (r'.executions ≡ r.executions)
unfolding handle_message handle_error log_audit
failing_fate a event err r h = elim (Bool-cases (ltb_ℤ event.retry_count event.max_retries)) [
  | inl e ↦
      rw (process-error a event err r h, e, leb_of_ltb event.retry_count event.max_retries e)
        (refl, refl)
  | inr e ↦ elim (Bool-cases a.pushed) [
    | inl p ↦
        rw
          (
            process-error a event err r h,
            e,
            leb_of_not_ltb event.retry_count event.max_retries e,
            p,
          )
          (refl, refl)
    | inr p ↦
        rw
          (
            process-error a event err r h,
            e,
            leb_of_not_ltb event.retry_count event.max_retries e,
            p,
          )
          (refl, refl)
  ]
]

pub handle_error-result :
    (a : Answers) (event : Event) (err : String) (r : Records)
    → (if (handle_error a event err r).1 then false else ltb_ℤ event.retry_count event.max_retries)
      ≡ false
unfolding handle_error
handle_error-result a event err r = elim (Bool-cases (ltb_ℤ event.retry_count event.max_retries)) [
  | inl e ↦ rw (e, leb_of_ltb event.retry_count event.max_retries e)
  | inr e ↦ rw e (ground arith)
]

pub outcome-result :
    (a : Answers) (event : Event) (r : Records) (got : String ⊎ Function)
    (executed : String ⊎ ExecutionResult)
    → (if (outcome a event got executed r).1
        then false
        else ltb_ℤ event.retry_count event.max_retries)
      ≡ false
unfolding outcome succeed
outcome-result a event r (inl err) executed = handle_error-result a event err r
outcome-result a event r (inr f) (inl err) = handle_error-result a event err r
outcome-result a event r (inr f) (inr result) = refl

pub is_requeue-if :
    (ok retries : Bool)
    → is_requeue (if ok then ack else if retries then requeue else nack)
      ≡ (if ok then false else retries)
is_requeue-if true retries = refl
is_requeue-if false true = refl
is_requeue-if false false = refl

-- Whatever the parts answer, no delivery is put back into its queue.
pub never_requeued :
    (a : Answers) (body : Option Event) (r : Records)
    → is_requeue (handle_message a body r).1 ≡ false
unfolding handle_message process
never_requeued a none r = refl
never_requeued a (some event) r =
    is_requeue-if (outcome a event a.got a.executed r).1 (ltb_ℤ event.retry_count event.max_retries)
    ∙ outcome-result a event r a.got a.executed

-- A dead letter whose retries are used up.
abbrev pub Exhausted : DeadLetterItem → Type 0
Exhausted item = leb_ℤ item.max_retries item.retry_count ≡ true

pub handle_error-Exhausted :
    (a : Answers) (event : Event) (err : String) (r : Records)
    → All Exhausted r.dead_letters
    → All Exhausted (handle_error a event err r).0.dead_letters
unfolding handle_error log_audit dead_letter_of
handle_error-Exhausted a event err r h =
    elim (Bool-cases (leb_ℤ event.max_retries event.retry_count)) [
      | inl e ↦ elim (Bool-cases a.pushed) [ inl p ↦ rw (e, p) (e, h) | inr p ↦ rw (e, p) h ]
      | inr e ↦ rw e h
    ]

pub outcome-Exhausted :
    (a : Answers) (event : Event) (r : Records) (got : String ⊎ Function)
    (executed : String ⊎ ExecutionResult)
    → All Exhausted r.dead_letters
    → All Exhausted (outcome a event got executed r).0.dead_letters
unfolding outcome succeed log_audit
outcome-Exhausted a event r (inl err) executed h = handle_error-Exhausted a event err r h
outcome-Exhausted a event r (inr f) (inl err) h = handle_error-Exhausted a event err r h
outcome-Exhausted a event r (inr f) (inr result) h = elim (Bool-cases a.execution_saved) [
  | inl e ↦ rw e h
  | inr e ↦ rw e h
]

pub handle_message-Exhausted :
    (a : Answers) (body : Option Event) (r : Records)
    → All Exhausted r.dead_letters
    → All Exhausted (handle_message a body r).0.dead_letters
unfolding handle_message process
handle_message-Exhausted a none r h = h
handle_message-Exhausted a (some event) r h = outcome-Exhausted a event r a.got a.executed h

-- Over any sequence of deliveries the dead letters stay those of events whose retries are used up.
pub dead_letters-Exhausted :
    (deliveries : List (Answers × Option Event)) (r : Records)
    → All Exhausted r.dead_letters
    → All Exhausted (handle_all deliveries r).0.dead_letters
unfolding handle_all
dead_letters-Exhausted [] r h = h
dead_letters-Exhausted (d ∷ later) r h =
    dead_letters-Exhausted later (handle_message d.0 d.1 r).0 (handle_message-Exhausted d.0 d.1 r h)
