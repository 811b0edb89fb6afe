-- ===== src/Messaging/Settled.antt =====
-- How a delivery ends (`dispatch` of internal/messaging/consumer.go).
use stora_ecommerce.Prelude.{
  ℕ, zero, suc, ◌+◌, ◌≤◌, ◌≡◌, refl, ap, ◌∙◌, ⊤, Bool, true, false, List, [], ◌∷◌, ◌++◌, length,
  arith, Bool-cases, inl, inr,
}
use mathlib.Core.Path.{subst}
use stora_ecommerce.Effect.{
  Env, World, Err, Result, ok, err, M, Message, mail_sent, payment_received, payment_failed_mail,
  ◌>>=◌, send,
}
use stora_ecommerce.Orders.Model.{OrderResponse}
use stora_ecommerce.Orders.Service.{load_by_id}
use stora_ecommerce.Messaging.{
  Settlement, settle_last, settle, unless_stopped, acked, requeued, dead_lettered,
  stopped_while_waiting, dispatch, Event, succeeded_event, failed_event, undecodable, unknown_key,
  send_confirmation, send_failure, handle, consume, backoffs,
}

-- A number of attempts that fail, each with a wait after it that no shutdown breaks off.
pub data Failing (handler : M ⊤) (env : Env) : ℕ → World → World → Type 0 where
  done : (w : World) → Failing handler env zero w w
  again :
      {n : ℕ} {w w' : World} (e : Err) (failed : World)
      → handler env w ≡ (err e, failed)
      → env.stopped failed.tick ≡ false
      → Failing handler env n (record failed { tick = failed.tick + 1 }) w'
      → Failing handler env (suc n) w w'

module _ (handler : M ⊤) (env : Env) where
  retry :
      (backoff : ℕ) (rest : List ℕ) (e : Err) (w failed : World)
      → handler env w ≡ (err e, failed)
      → env.stopped failed.tick ≡ false
      → dispatch handler (backoff ∷ rest) env w
        ≡ dispatch handler rest env (record failed { tick = failed.tick + 1 })
  unfolding dispatch stopped_while_waiting
  retry backoff rest e w failed h running =
      ap (λ (x : Result ⊤ × World). settle (dispatch handler rest) x.0 env x.1) h
      ∙ ap
          (λ b.
            unless_stopped (dispatch handler rest) b env (record failed { tick = failed.tick + 1 }))
          running

  accept :
      (rest : List ℕ) (w w' : World)
      → handler env w ≡ (ok tt, w')
      → dispatch handler rest env w ≡ (ok acked, w')
  unfolding dispatch
  accept [] w w' h = ap (λ (x : Result ⊤ × World). settle_last x.0 env x.1) h
  accept (backoff ∷ rest) w w' h =
      ap (λ (x : Result ⊤ × World). settle (dispatch handler rest) x.0 env x.1) h

-- A delivery is acknowledged as soon as an attempt succeeds: whatever attempts have failed before,
-- as long as there are no more of them than backoffs and no shutdown has come between.
pub dispatch-acked :
    (handler : M ⊤) (env : Env) (n : ℕ) (delays : List ℕ) (w w' w'' : World)
    → Failing handler env n w w'
    → n ≤ length delays
    → handler env w' ≡ (ok tt, w'')
    → dispatch handler delays env w ≡ (ok acked, w'')
dispatch-acked handler env zero delays w w' w'' (done _) h success =
    accept handler env delays w w'' success
dispatch-acked handler env (suc n) [] w w' w'' failing h success = absurd (omega (arith, h))
dispatch-acked handler env (suc n) (delay ∷ delays) w w' w'' (again e failed fails running rest) h
      success =
    retry handler env delay delays e w failed fails running
    ∙ dispatch-acked handler env n delays (record failed { tick = failed.tick + 1 }) w' w'' rest
        (omega (arith, h)) success

-- What the attempts of a delivery end with.
pub data Outcome (handler : M ⊤) (env : Env) (delays : List ℕ) (w : World)
    : Settlement → World → Type 0 where
  accepted :
      {w'' : World} (n : ℕ) (w' : World)
      → n ≤ length delays
      → Failing handler env n w w'
      → handler env w' ≡ (ok tt, w'')
      → Outcome handler env delays w acked w''
  exhausted :
      {w'' : World} (w' : World) (e : Err)
      → Failing handler env (length delays) w w'
      → handler env w' ≡ (err e, w'')
      → Outcome handler env delays w dead_lettered w''
  interrupted :
      {w'' : World} (n : ℕ) (w' failed : World) (e : Err)
      → suc n ≤ length delays
      → Failing handler env n w w'
      → handler env w' ≡ (err e, failed)
      → env.stopped failed.tick ≡ true
      → w'' ≡ record failed { tick = failed.tick + 1 }
      → Outcome handler env delays w requeued w''

abbrev pub Settles :
    (handler : M ⊤) (env : Env) (delays : List ℕ) (w : World) → Result Settlement × World → Type 0
Settles handler env delays w (ok s, w') = Outcome handler env delays w s w'
Settles handler env delays w (err e, w') = ⊥

module _ (handler : M ⊤) (env : Env) where
  -- A failure and a wait before the rest.
  delayed :
      (delay : ℕ) (rest : List ℕ) (e : Err) (w failed : World) (r : Result Settlement × World)
      → handler env w ≡ (err e, failed)
      → env.stopped failed.tick ≡ false
      → Settles handler env rest (record failed { tick = failed.tick + 1 }) r
      → Settles handler env (delay ∷ rest) w r
  delayed delay rest e w failed (err x, w'') fails running s = s
  delayed delay rest e w failed (ok s, w'') fails running (accepted n w' le failing success) =
      accepted (suc n) w' (omega (arith, le)) (again e failed fails running failing) success
  delayed delay rest e w failed (ok s, w'') fails running (exhausted w' x failing last) =
      exhausted w' x (again e failed fails running failing) last
  delayed delay rest e w failed (ok s, w'') fails running
        (interrupted n w' failed' x le failing last stop end) =
      interrupted (suc n) w' failed' x (omega (arith, le)) (again e failed fails running failing)
        last stop end

  settle_last-Settles :
      (w w' : World) (r : Result ⊤)
      → handler env w ≡ (r, w')
      → Settles handler env [] w (settle_last r env w')
  settle_last-Settles w w' (ok x) h = accepted zero w (omega arith) (done w) h
  settle_last-Settles w w' (err e) h = exhausted w e (done w) h

  unless_stopped-Settles :
      (delay : ℕ) (rest : List ℕ) (e : Err) (w failed : World)
      → handler env w ≡ (err e, failed)
      → ((w : World) → Settles handler env rest w (dispatch handler rest env w))
      → (stop : Bool) → env.stopped failed.tick ≡ stop
      → Settles handler env (delay ∷ rest) w (
          unless_stopped
            (dispatch handler rest)
            stop
            env
            (record failed { tick = failed.tick + 1 }))
  unless_stopped-Settles delay rest e w failed h ih true stop =
      interrupted zero w failed e (omega arith) (done w) h stop refl
  unless_stopped-Settles delay rest e w failed h ih false running =
      delayed delay rest e w failed
        (dispatch handler rest env (record failed { tick = failed.tick + 1 })) h running
        (ih (record failed { tick = failed.tick + 1 }))

  settle-Settles :
      (delay : ℕ) (rest : List ℕ) (w w' : World) (r : Result ⊤)
      → handler env w ≡ (r, w')
      → ((w : World) → Settles handler env rest w (dispatch handler rest env w))
      → Settles handler env (delay ∷ rest) w (settle (dispatch handler rest) r env w')
  unfolding stopped_while_waiting
  settle-Settles delay rest w w' (ok x) h ih = accepted zero w (omega arith) (done w) h
  settle-Settles delay rest w w' (err e) h ih =
      unless_stopped-Settles delay rest e w w' h ih (env.stopped w'.tick) refl

-- Every delivery is settled, once, after at most one attempt more than there are backoffs: it is
-- acknowledged when an attempt has succeeded, passed to the dead letters when every attempt has
-- failed, and returned to the queue when a shutdown comes in a wait after a failure.
pub dispatch-Settles :
    (handler : M ⊤) (env : Env) (delays : List ℕ) (w : World)
    → Settles handler env delays w (dispatch handler delays env w)
unfolding dispatch
dispatch-Settles handler env [] w =
    settle_last-Settles handler env w (handler env w).1 (handler env w).0 refl
dispatch-Settles handler env (delay ∷ delays) w =
    settle-Settles handler env delay delays w (handler env w).1 (handler env w).0 refl
      (λ w'. dispatch-Settles handler env delays w')

-- A world in which a message has left the process.
abbrev sent_from : World → Message → World
sent_from w msg = record w { tick = w.tick + 1; outbox = w.outbox ++ msg ∷ [] }

-- The mail that an event is about, to the address and with the number of the order that `LoadByID`
-- has returned for its id, is all that an attempt adds to what has left the process.
abbrev pub Answers : Event → Env → World → World → Type 0
Answers (succeeded_event id) env before w =
    (o : OrderResponse) × (loaded : World) × (load_by_id id env before ≡ (ok o, loaded))
    × (w ≡ sent_from loaded (mail_sent o.order.email (payment_received o.order.order_number)))
Answers (failed_event id code message) env before w =
    (o : OrderResponse) × (loaded : World) × (load_by_id id env before ≡ (ok o, loaded))
    × (w
        ≡ sent_from loaded
            (mail_sent o.order.email (payment_failed_mail o.order.order_number code message)))
Answers undecodable env before w = ⊥
Answers unknown_key env before w = ⊥

-- An attempt that answers an event, after at most as many failures as there are backoffs.
abbrev pub Mailed : Event → Env → World → World → Type 0
Mailed event env w w' =
    (n : ℕ) × (before : World) × (n ≤ length backoffs)
    × Failing (handle event) env n w before
    × Answers event env before w'

abbrev Sent : (World → Type 0) → Result ⊤ × World → Type 0
Sent P (ok x, w) = P w
Sent P (err e, w) = ⊤

send-Sent :
    (P : World → Type 0) (msg : Message) (env : Env) (w : World)
    → P (sent_from w msg)
    → Sent P (send msg env w)
send-Sent P msg env w p = elim (Bool-cases (env.fault w.tick)) [
  | inl failed ↦ rw failed tt
  | inr fine ↦ rw fine p
]

Sent-bind :
    {A : Type 0} (P : World → Type 0) (m : M A) (f : A → M ⊤) (env : Env) (w : World)
    → ((a : A) (w' : World) → m env w ≡ (ok a, w') → Sent P (f a env w'))
    → Sent P ((m >>= f) env w)
Sent-bind {A} P m f env w h = go (m env w).0 (m env w).1 refl
  where
    go : (r : Result A) (w' : World) → m env w ≡ (r, w') → Sent P (((λ env w. (r, w')) >>= f) env w)
    go (ok a) w' e = h a w' e
    go (err x) w' e = tt

handle-Sent :
    (event : Event) (env : Env) (w : World) → Sent (Answers event env w) (handle event env w)
unfolding handle send_confirmation send_failure
handle-Sent (succeeded_event id) env w =
    Sent-bind (Answers (succeeded_event id) env w) (load_by_id id)
      (λ o. send (mail_sent o.order.email (payment_received o.order.order_number))) env w
      (λ o w' e.
        send-Sent (Answers (succeeded_event id) env w)
          (mail_sent o.order.email (payment_received o.order.order_number)) env w' (o, w', e, refl))
handle-Sent (failed_event id code message) env w =
    Sent-bind (Answers (failed_event id code message) env w) (load_by_id id)
      (λ o. send (mail_sent o.order.email (payment_failed_mail o.order.order_number code message)))
      env w
      (λ o w' e.
        send-Sent (Answers (failed_event id code message) env w)
          (mail_sent o.order.email (payment_failed_mail o.order.order_number code message)) env w'
          (o, w', e, refl))
handle-Sent undecodable env w = tt
handle-Sent unknown_key env w = tt

acked-Mailed :
    (event : Event) (env : Env) (w w' : World)
    → Outcome (handle event) env backoffs w acked w'
    → Mailed event env w w'
acked-Mailed event env w w' (accepted n before le failing success) = (
  n,
  before,
  le,
  failing,
  subst (Sent (Answers event env before)) success (handle-Sent event env before),
)

-- A payment event that is acknowledged has been answered: after at most three attempts that failed,
-- one has loaded the order of the event and has then sent one mail, to the address and with the
-- number of that order, of the event's kind and with the code and the message of a failure. An event
-- that cannot be decoded, or has an unknown routing key, is not acknowledged.
pub consume-Mailed :
    (event : Event) (env : Env) (w w' : World)
    → consume event env w ≡ (ok acked, w')
    → Mailed event env w w'
unfolding consume
consume-Mailed event env w w' h = acked-Mailed event env w w' (
    subst (Settles (handle event) env backoffs w) h
      (dispatch-Settles (handle event) env backoffs w))
