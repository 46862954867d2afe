-- ===== src/Gateway/Router/Logs/Order.antt =====
-- stream.go: what the client of a build's log gets is the log itself, in order.
use mathlib.Core.List.{append_assoc}
use mini_lambda.Common.{
  ℕ, ◌≡◌, ◌<◌, ◌≤◌, refl, sym, ap, ◌∙◌, String, Bool, true, false, ◌||◌, Option, none, some, List,
  [], ◌∷◌, ◌++◌, inl, inr, if◌then◌else◌, arith, ltb, lt→ltb, ltb→lt, le→ltb, length, Bool-cases,
  All, keep,
}
use mini_lambda.Gateway.Router.Logs.{
  Message, Turn, Progress, event_of, ends_log, deliver, resume, after_read, stream,
}

-- The entries with an ID above the given one.
abbrev pub after : ℕ → List Message → List Message
after last_id log = keep (λ m. ltb last_id m.id) log

abbrev pub Increasing : ℕ → List Message → Type 0
Increasing from [] = Unit
Increasing from (m ∷ ms) = (from < m.id) × Increasing m.id ms

-- The events of a log up to its first last line.
unfoldable pub up_to_end : List Message → List String
up_to_end [] = []
up_to_end (m ∷ ms) =
    let rest = up_to_end ms in if ends_log m.log then event_of m.log ∷ [] else event_of m.log ∷ rest

-- The answer holds entries of the log in order, from the first after the ID on.
abbrev pub Answers : List Message → ℕ → Option (List Message) → Type 0
Answers log last_id none = Unit
Answers log last_id (some batch) = (rest : List Message) × (after last_id log ≡ batch ++ rest)

pub after-all :
    (from last_id : ℕ) (log : List Message)
    → last_id ≤ from
    → Increasing from log
    → after last_id log ≡ log
after-all from last_id [] h k = refl
after-all from last_id (m ∷ ms) h k =
    rw
      (lt→ltb last_id m.id (omega (arith, k.0)), after-all m.id last_id ms (omega (arith, k.0)) k.1)
      refl

head_of : List Message → Message → Message
head_of [] m = m
head_of (x ∷ xs) m = x

tail_of : List Message → List Message
tail_of [] = []
tail_of (x ∷ xs) = xs

-- The first entry after an ID, and what comes after that entry.
pub after-first :
    (from last_id : ℕ) (log : List Message) (m : Message) (rest : List Message)
    → Increasing from log
    → after last_id log ≡ m ∷ rest
    → (from < m.id) × (after m.id log ≡ rest)
unfolding tail_of head_of
after-first from last_id [] m rest h e = absurd (ground (arith, ap length e))
after-first from last_id (x ∷ xs) m rest h e = elim (Bool-cases (ltb last_id x.id)) [
  | inl later ↦
      let q : x ∷ after last_id xs ≡ m ∷ rest = rw (sym e, later) refl in
      let same : x ≡ m = ap (λ l. head_of l x) q in
      let tails : after last_id xs ≡ rest = ap tail_of q in
      let all = after-all x.id last_id xs (omega (arith, ltb→lt last_id x.id later)) h.1 in
      let skipped = after-all x.id x.id xs (omega arith) h.1 in
      let skipped' : after x.id (x ∷ xs) ≡ xs = rw (le→ltb x.id x.id (omega arith)) skipped in
      let same_id = ap (λ x. x.id) same in
      (
        omega (arith, h.0, same_id),
        ap (λ n. after n (x ∷ xs)) (sym same_id) ∙ skipped' ∙ sym all ∙ tails,
      )
  | inr earlier ↦
      let q : after last_id xs ≡ m ∷ rest = rw (sym e, earlier) refl in
      let (lt, found) = after-first x.id last_id xs m rest h.1 q in
      (omega (arith, h.0, lt), rw (le→ltb m.id x.id (omega (arith, lt))) found)
]

-- An answer that was delivered, and the log after it.
abbrev Delivered : List Message → ℕ → Progress → Type 0
Delivered log last_id p =
    p.written ++ (if p.ended then [] else up_to_end (after p.last_id log))
    ≡ up_to_end (after last_id log)

deliver-Delivered :
    (log : List Message)
    → Increasing 0 log
    → (batch rest : List Message) (last_id : ℕ) → after last_id log ≡ batch ++ rest
    → Delivered log last_id (deliver batch last_id)
unfolding deliver up_to_end
deliver-Delivered log h [] rest last_id e = refl
deliver-Delivered log h (m ∷ ms) rest last_id e =
    let (_, next) = after-first 0 last_id log m (ms ++ rest) h e in
    let later = deliver-Delivered log h ms rest m.id next in
    elim (Bool-cases (ends_log m.log)) [
      | inl last ↦ rw (e, last) refl
      | inr more ↦ rw (e, more, sym next) (ap (λ l. event_of m.log ∷ l) later)
    ]

-- A turn reads the log when `XRead` answers with the next of its entries, some or none.
abbrev pub Reads : List Message → Turn → Type 0
Reads log t = (last_id : ℕ) → Answers log last_id (t.read last_id)

resume-Delivered :
    (log : List Message) (last_id : ℕ) (written : List String) (seen : ℕ) (ended : Bool)
    (next : ℕ → Progress)
    → Delivered log last_id (record { written = written; last_id = seen; ended = ended })
    → ((n : ℕ) → Delivered log n (next n))
    → Delivered log last_id
        (resume (record { written = written; last_id = seen; ended = ended }) next)
resume-Delivered log last_id written seen true next h k = h
resume-Delivered log last_id written seen false next h k =
    append_assoc written _ _ ∙ ap (λ l. written ++ l) (k seen) ∙ h

after_read-Delivered :
    (log : List Message) (answer : Option (List Message)) (last_id : ℕ) (next : ℕ → Progress)
    → Increasing 0 log
    → Answers log last_id answer
    → ((n : ℕ) → Delivered log n (next n))
    → Delivered log last_id (after_read answer last_id next)
unfolding after_read
after_read-Delivered log none last_id next h a k = refl
after_read-Delivered log (some batch) last_id next h (rest, e) k =
    let p = deliver batch last_id in
    resume-Delivered log last_id p.written p.last_id p.ended next
      (deliver-Delivered log h batch rest last_id e) k

stream-Delivered :
    (log : List Message)
    → Increasing 0 log
    → (turns : List Turn) (last_id : ℕ) → All (Reads log) turns
    → Delivered log last_id (stream turns last_id)
unfolding stream
stream-Delivered log h [] last_id reads = refl
stream-Delivered log h (t ∷ later) last_id reads = elim (Bool-cases (t.timed_out || t.cancelled)) [
  | inl over ↦ rw over refl
  | inr on ↦ rw on (
      after_read-Delivered log (t.read last_id) last_id (stream later) h (reads.0 last_id)
        (λ n. stream-Delivered log h later n reads.1))
]

-- However Redis splits the log into answers, whatever turns read nothing, and wherever the loop
-- stops: the events that the client got, followed by those of the entries after the last ID (none
-- if the loop saw the last line), are exactly the events of the log up to its first last line.
pub stream_is_log :
    (log : List Message) (turns : List Turn)
    → Increasing 0 log
    → All (Reads log) turns
    → let p = stream turns 0 in
      p.written ++ (if p.ended then [] else up_to_end (after p.last_id log)) ≡ up_to_end log
stream_is_log log turns h reads =
    stream-Delivered log h turns 0 reads ∙ ap up_to_end (after-all 0 0 log (omega arith) h)
