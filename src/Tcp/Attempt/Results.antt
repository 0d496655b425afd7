-- ===== src/Tcp/Attempt/Results.antt =====
-- How often, and with what, an attempt to connect calls back.
use iran_remote_play.Prelude.{
  ◌≤◌, ◌≡◌, refl, ◌∙◌, subst, ◌⊎◌, inl, inr, Option, none, some, List, [], ◌∷◌, ◌++◌, Bool, true,
  false, ◌&&◌, ◌||◌, not, if◌then◌else◌, ◌==◌, length, arith, Bool-cases, All,
}
use iran_remote_play.Prelude.Bytes.{Bytes}
use iran_remote_play.Tcp.{Code, success, timed_out, connection_refused, failed}
use iran_remote_play.Tcp.Attempt.{
  Stage, resolving, connecting, sending, replying, over, ended, rank, go_to, read_reply, getline,
  Attempt, started, finish, cancel, contains, getline, on_line, proceed, on_reply, on_connected,
  Event, timer, resolved, connected, sent, reply, cancelled, step, run, relay_rejected,
  relay_paired,
}

-- A connection comes exactly with the code of success.
abbrev pub IsFair : Code × Bool → Type 0
IsFair r = r.1 ≡ not (failed r.0)

-- `quiet` says that nobody cancelled.
unfoldable ToldWith : Bool → Bool → List (Code × Bool) → Type 0
ToldWith quiet false results = results ≡ []
ToldWith quiet true results =
    (length results ≤ 1) × All IsFair results × (quiet ≡ true → length results ≡ 1)

unfoldable IsTold : Bool → Attempt → Type 0
unfolding ToldWith
IsTold quiet a = ToldWith quiet a.finished a.results

open_told : (quiet : Bool) (a : Attempt) → a.finished ≡ false → IsTold quiet a → a.results ≡ []
unfolding IsTold
open_told quiet a b h = subst (λ t. ToldWith quiet t a.results) b h

if-IsTold :
    (quiet b : Bool) (a c : Attempt)
    → (b ≡ true → IsTold quiet a)
    → (b ≡ false → IsTold quiet c)
    → IsTold quiet (if b then a else c)
if-IsTold quiet true a c h k = h refl
if-IsTold quiet false a c h k = k refl

finish-IsTold :
    (quiet : Bool) (ec : Code) (conn : Bool) (a : Attempt)
    → conn ≡ not (failed ec)
    → IsTold quiet a
    → IsTold quiet (finish ec conn a)
unfolding finish IsTold
finish-IsTold quiet ec conn a f h =
    if-IsTold quiet a.finished _ _ (λ b. h)
      (λ b. rw (open_told quiet a b h) (omega arith, (f, tt), λ q. refl))

cancel-IsTold : (quiet : Bool) (a : Attempt) → IsTold quiet a → IsTold false (cancel a)
unfolding cancel IsTold ToldWith
cancel-IsTold quiet a h = elim (Bool-cases a.finished) [
  | inl b ↦ let s = subst (λ t. ToldWith quiet t a.results) b h in rw b (s.0, s.1, λ q. cc)
  | inr b ↦ rw (b, open_told quiet a b h) (omega arith, tt, λ q. cc)
]

proceed-IsTold :
    (quiet : Bool) (ec : Code) (next : Attempt → Attempt) (a : Attempt)
    → IsTold quiet a
    → IsTold quiet (next a)
    → IsTold quiet (proceed ec next a)
unfolding proceed
proceed-IsTold quiet ec next a h k =
    if-IsTold quiet a.finished _ _ (λ b. h)
      (λ b.
        if-IsTold quiet (failed ec) _ _ (λ f. finish-IsTold quiet ec false a (rw f refl) h)
          (λ f. k))

on_line-IsTold :
    (quiet : Bool) (line : Bytes) (a : Attempt) → IsTold quiet a → IsTold quiet (on_line line a)
unfolding on_line failed IsTold
on_line-IsTold quiet line a h =
    if-IsTold quiet (contains relay_rejected line) _ _
      (λ b. finish-IsTold quiet connection_refused false a refl h)
      (λ b.
        if-IsTold quiet (contains relay_paired line) _ _
          (λ c. finish-IsTold quiet success true a refl h) (λ c. h))

on_reply-IsTold :
    (quiet : Bool) (o : Option (Bytes × Bytes)) (a : Attempt)
    → IsTold quiet a
    → IsTold quiet (on_reply o a)
unfolding on_reply IsTold
on_reply-IsTold quiet none a h = h
on_reply-IsTold quiet (some (line, rest)) a h =
    on_line-IsTold quiet line (record a { reply_buf = rest }) h

on_connected-IsTold : (quiet : Bool) (a : Attempt) → IsTold quiet a → IsTold quiet (on_connected a)
unfolding on_connected failed IsTold
on_connected-IsTold quiet a h =
    if-IsTold quiet a.relay _ _ (λ b. h) (λ b. finish-IsTold quiet success true a refl h)

read_reply-IsTold :
    (quiet : Bool) (buf : Bytes) (a : Attempt) → IsTold quiet a → IsTold quiet (read_reply buf a)
unfolding read_reply IsTold
read_reply-IsTold quiet buf a h =
    on_reply-IsTold quiet (getline buf) (record a { reply_buf = buf }) h

ended-IsTold :
    (quiet : Bool) (stage : Stage) (ec : Code) (next : Attempt → Attempt) (a : Attempt)
    → IsTold quiet a
    → ((b : Attempt) → IsTold quiet b → IsTold quiet (next b))
    → IsTold quiet (ended stage (proceed ec next) a)
unfolding ended IsTold
ended-IsTold quiet stage ec next a h k =
    let b : Attempt = record a { stage = over } in
    if-IsTold quiet (rank a.stage == rank stage) (proceed ec next b) a
      (λ y. proceed-IsTold quiet ec next b h (k b h)) (λ n. h)

-- A quiet event, and one that is not.
unfoldable pub cancels : Event → Bool
cancels timer = false
cancels (resolved ec) = false
cancels (connected ec) = false
cancels (sent ec) = false
cancels (reply ec bytes) = false
cancels cancelled = true

step-IsTold :
    (quiet : Bool) (e : Event) (a : Attempt)
    → IsTold quiet a
    → IsTold (if cancels e then false else quiet) (step e a)
unfolding step cancels IsTold failed go_to
step-IsTold quiet timer a h = finish-IsTold quiet timed_out false a refl h
step-IsTold quiet cancelled a h = cancel-IsTold quiet a h
step-IsTold quiet (resolved ec) a h =
    ended-IsTold quiet resolving ec (go_to connecting) a h (λ b k. k)
step-IsTold quiet (connected ec) a h =
    ended-IsTold quiet connecting ec on_connected a h (on_connected-IsTold quiet)
step-IsTold quiet (sent ec) a h = ended-IsTold quiet sending ec (go_to replying) a h (λ b k. k)
step-IsTold quiet (reply ec bytes) a h =
    ended-IsTold quiet replying ec (read_reply (a.reply_buf ++ bytes)) a h
      (read_reply-IsTold quiet (a.reply_buf ++ bytes))

unfoldable pub some_cancels : List Event → Bool
unfolding cancels
some_cancels [] = false
some_cancels (e ∷ es) = cancels e || some_cancels es

run-IsTold :
    (es : List Event) (quiet : Bool) (a : Attempt)
    → IsTold quiet a
    → IsTold (quiet && not (some_cancels es)) (run es a)
unfolding run some_cancels
run-IsTold [] quiet a h = subst (λ t. IsTold t a) (ground arith) h
run-IsTold (e ∷ es) quiet a h =
    subst (λ t. IsTold t (run es (step e a))) (ground arith)
      (run-IsTold es (if cancels e then false else quiet) (step e a) (step-IsTold quiet e a h))

-- A finished attempt stays so, and calls back no more.
abbrev Stays : Attempt → Attempt → Type 0
Stays a b = (b.finished ≡ true) × (b.results ≡ a.results)

ended-Stays :
    (stage : Stage) (ec : Code) (next : Attempt → Attempt) (a : Attempt)
    → a.finished ≡ true
    → Stays a (ended stage (proceed ec next) a)
unfolding ended proceed
ended-Stays stage ec next a h = elim (Bool-cases (rank a.stage == rank stage)) [
  | inl b ↦ rw (b, h) (refl, refl)
  | inr b ↦ rw b (h, refl)
]

step-Stays : (e : Event) (a : Attempt) → a.finished ≡ true → Stays a (step e a)
unfolding step finish cancel
step-Stays timer a h = ground arith
step-Stays cancelled a h = ground arith
step-Stays (resolved ec) a h = ended-Stays resolving ec (go_to connecting) a h
step-Stays (connected ec) a h = ended-Stays connecting ec on_connected a h
step-Stays (sent ec) a h = ended-Stays sending ec (go_to replying) a h
step-Stays (reply ec bytes) a h = ended-Stays replying ec (read_reply (a.reply_buf ++ bytes)) a h

run-Stays : (es : List Event) (a : Attempt) → a.finished ≡ true → Stays a (run es a)
unfolding run
run-Stays [] a h = (h, refl)
run-Stays (e ∷ es) a h =
    let s = step-Stays e a h in let r = run-Stays es (step e a) s.0 in (r.0, r.1 ∙ s.1)

times_out : Event → Bool
times_out timer = true
times_out (resolved ec) = false
times_out (connected ec) = false
times_out (sent ec) = false
times_out (reply ec bytes) = false
times_out cancelled = false

unfoldable pub some_times_out : List Event → Bool
unfolding times_out
some_times_out [] = false
some_times_out (e ∷ es) = times_out e || some_times_out es

run-finished :
    (es : List Event) (a : Attempt) → some_times_out es ≡ true → (run es a).finished ≡ true
unfolding run some_times_out times_out step finish
run-finished [] a h = cc
run-finished (timer ∷ es) a h = (run-Stays es (step timer a) (ground arith)).0
run-finished (cancelled ∷ es) a h = run-finished es (step cancelled a) h
run-finished (resolved ec ∷ es) a h = run-finished es (step (resolved ec) a) h
run-finished (connected ec ∷ es) a h = run-finished es (step (connected ec) a) h
run-finished (sent ec ∷ es) a h = run-finished es (step (sent ec) a) h
run-finished (reply ec bytes ∷ es) a h = run-finished es (step (reply ec bytes) a) h

cancelled-Stays : (a : Attempt) → Stays a (step cancelled a)
unfolding step cancel
cancelled-Stays a = elim (Bool-cases a.finished) [
  | inl b ↦ rw b (refl, refl)
  | inr b ↦ rw b (refl, refl)
]

told_all :
    (quiet : Bool) (a : Attempt)
    → IsTold quiet a
    → (length a.results ≤ 1)
      × All IsFair a.results
      × (quiet ≡ true → a.finished ≡ true → length a.results ≡ 1)
unfolding IsTold ToldWith
told_all quiet a h = elim (Bool-cases a.finished) [
  | inl b ↦ let s = subst (λ t. ToldWith quiet t a.results) b h in (s.0, s.1, λ q f. s.2 q)
  | inr b ↦ rw (open_told quiet a b h) (omega arith, tt, λ q f. cc)
]

due_told :
    (es : List Event) (a : Attempt)
    → (not (some_cancels es) ≡ true → a.finished ≡ true → length a.results ≡ 1)
    → (some_times_out es ≡ true → a.finished ≡ true)
    → (some_times_out es ≡ false) ⊎ (some_cancels es ≡ true) ⊎ (length a.results ≡ 1)
due_told es a told due = elim (Bool-cases (some_times_out es)) [
  | inr n ↦ inl n
  | inl y ↦ elim (Bool-cases (some_cancels es)) [
    | inl c ↦ inr (inl c)
    | inr q ↦ inr (inr (told (rw q refl) (due y)))
  ]
]

-- Whatever ends in whatever order, an attempt to connect, direct or over the relay, calls back at
-- most once, with a connection exactly when it calls with success; exactly once when its timer has
-- ended and nobody cancelled it; and once it is cancelled it does not call back any more.
pub run-results :
    (relay : Bool) (es more : List Event)
    → let a = run es (started relay) in
      (length a.results ≤ 1)
      × All IsFair a.results
      × ((some_times_out es ≡ false) ⊎ (some_cancels es ≡ true) ⊎ (length a.results ≡ 1))
      × ((run more (step cancelled a)).results ≡ a.results)
unfolding started IsTold ToldWith
run-results relay es more =
    let a = run es (started relay) in
    let t = told_all (not (some_cancels es)) a (run-IsTold es true (started relay) refl) in
    let c = cancelled-Stays a in
    (
      t.0,
      t.1,
      due_told es (run es (started relay)) t.2 (run-finished es (started relay)),
      (run-Stays more (step cancelled a) c.0).1 ∙ c.1,
    )
