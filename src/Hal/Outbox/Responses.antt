-- ===== src/Hal/Outbox/Responses.antt =====
-- The responses that wait in the outbox: a delta never takes or makes one.
use linuxcnc_ctrl.Prelude.{
  ℕ, ◌+◌, ◌≡◌, refl, true, false, some, List, [], ◌∷◌, if◌then◌else◌, count_if, count_if-append,
  arith,
}
use linuxcnc_ctrl.Hal.Outbox.{
  Delta, Message, delta, other, Entry, Outbox, merge_back, append_delta, push_delta, push_response,
  pop_front,
}

abbrev pub responses : Outbox → ℕ
responses o = count_if (λ entry. entry.resume_read) o.entries

merge_back-responses :
    (d : Delta) (back : Entry) (message : Message)
    → count_if (λ entry. entry.resume_read) (merge_back d back message)
      ≡ count_if (λ entry. entry.resume_read) (back ∷ [])
unfolding merge_back
merge_back-responses d back (delta target) = refl
merge_back-responses d back (other n) = refl

append_delta-responses :
    (d : Delta) (entries : List Entry)
    → count_if (λ entry. entry.resume_read) (append_delta d entries)
      ≡ count_if (λ entry. entry.resume_read) entries
unfolding append_delta
append_delta-responses d [] = refl
append_delta-responses d (back ∷ []) = merge_back-responses d back back.message
append_delta-responses d (entry ∷ next ∷ entries) =
    ground (arith, append_delta-responses d (next ∷ entries))

pub push_delta-responses : (o : Outbox) (m : Message) → responses (push_delta o m) ≡ responses o
unfolding push_delta
push_delta-responses o (other n) = ground (
  arith,
  count_if-append (λ entry. entry.resume_read) o.entries
      (record { message = other n; resume_read = false } ∷ []),
)
push_delta-responses o (delta d) = append_delta-responses d o.entries

pub push_response-responses :
    (o : Outbox) (m : Message) → responses (push_response o m) ≡ responses o + 1
unfolding push_response
push_response-responses o m = ground (
  arith,
  count_if-append (λ entry. entry.resume_read) o.entries
      (record { message = m; resume_read = true } ∷ []),
)

pop_front-entries :
    (entries : List Entry) (rest : Outbox) (entry : Entry)
    → pop_front (record { entries = entries }) ≡ some (rest, entry)
    → count_if (λ e. e.resume_read) entries ≡ (if entry.resume_read then 1 else 0) + responses rest
unfolding pop_front
pop_front-entries [] rest entry h = ground (arith, h)
pop_front-entries (e ∷ entries) rest entry h = ground (arith, h)

pub pop_front-responses :
    (o rest : Outbox) (entry : Entry)
    → pop_front o ≡ some (rest, entry)
    → responses o ≡ (if entry.resume_read then 1 else 0) + responses rest
pop_front-responses o rest entry h = pop_front-entries o.entries rest entry h
