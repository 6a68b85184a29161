-- ===== src/Notify/Delivery.antt =====
-- What the dispatcher queues and delivers (backend/internal/notify/notify.go, `Notify`, `Flush` and
-- `render`).
use pmacct_suricata_analyzer.Prelude.{
  ℕ, suc, ◌+◌, ◌≤◌, ◌≡◌, refl, sym, ap, ◌∙◌, Bool, true, false, not, ◌&&◌, ◌||◌, List, [], ◌∷◌,
  ◌++◌, String, inl, inr, arith, Bool-cases, Option-cases, if◌then◌else◌, if-split, ltb, is_some,
  any, keep, All, count_where,
}
use pmacct_suricata_analyzer.Prelude.Int.{pos, eqb_ℤ}
use pmacct_suricata_analyzer.Alerts.{mark_notified}
use pmacct_suricata_analyzer.Alerts.Rows.{Alert, Table, severity_rank}
use pmacct_suricata_analyzer.Exclusions.{is_nil}
use pmacct_suricata_analyzer.Notify.Quiet.{in_quiet_hours}
use pmacct_suricata_analyzer.Notify.{
  Message, Channel, Dispatcher, Setup, min_severity, top_severity, render, ids, note_failure,
  send_all, delivered, flush, passes, queued, notify,
}

-- A channel that takes, or refuses, a message.
abbrev pub takes : Message → Channel → Bool
takes m c = not (is_some (c.send m))

abbrev pub refuses : Message → Channel → Bool
refuses m c = is_some (c.send m)

-- What one delivery leaves of a dispatcher: each refusal is counted, and only that.
pub record Sends (m : Message) (cs : List Channel) (d : Dispatcher) (r : Bool × Dispatcher)
    : Type 0 where
  pub took : r.0 ≡ any (takes m) cs
  pub failed : r.1.failed ≡ d.failed + count_where (refuses m) cs
  pub pending : r.1.pending ≡ d.pending
  pub sent : r.1.sent ≡ d.sent
  pub last : r.1.last ≡ d.last

send_all-Sends : (m : Message) (cs : List Channel) (d : Dispatcher) → Sends m cs d (send_all m cs d)
unfolding send_all
send_all-Sends m [] d = record {
  took = refl;
  failed = omega arith;
  pending = refl;
  sent = refl;
  last = refl;
}
send_all-Sends m (c ∷ cs) d = elim (Option-cases (c.send m)) [
  | inl e ↦
      let h = send_all-Sends m cs d in
      let t : takes m c ≡ true = rw e refl in
      let r : refuses m c ≡ false = rw e refl in
      rw (e, send_all)
        record {
          took = rw t refl;
          failed = rw r h.failed;
          pending = h.pending;
          sent = h.sent;
          last = h.last;
        }
  | inr (x, e) ↦
      let h = send_all-Sends m cs (note_failure c.name x d) in
      let t : takes m c ≡ false = rw e refl in
      let r : refuses m c ≡ true = rw e refl in
      rw (e, send_all)
        record {
          took = rw t h.took;
          failed = rw r (omega (arith, h.failed));
          pending = h.pending;
          sent = h.sent;
          last = h.last;
        }
]

-- A flush outside the quiet hours, with alerts pending, empties the queue and offers one message with
-- all of them to every channel: each refusal is counted; if a channel takes it the batch is counted
-- once and the time is kept as the last one, and, with a database whose statement succeeds, just the batch's alerts
-- are stamped; if none takes it the table is left as it was.
pub flush_counts :
    (env : Setup) (now : ℕ) (d : Dispatcher) (t : Table)
    → is_nil d.pending ≡ false
    → in_quiet_hours env.notify_quiet_hours (env.hour now) ≡ false
    → ((flush env now d t).0.pending ≡ [])
      × ((flush env now d t).0.failed
          ≡ d.failed + count_where (refuses (render d.pending)) env.channels)
      × ((flush env now d t).0.sent
          ≡ (if any (takes (render d.pending)) env.channels then suc d.sent else d.sent))
      × ((flush env now d t).0.last
          ≡ (if any (takes (render d.pending)) env.channels then now else d.last))
      × ((flush env now d t).1 ≡ (
          if any (takes (render d.pending)) env.channels && env.has_db && not env.mark_fails
          then mark_notified now (ids d.pending) t
          else t))
unfolding flush
flush_counts env now d t some_left awake =
    rw (some_left, awake)
      (by_outcome _ (send_all-Sends (render d.pending) env.channels (record d { pending = [] })))
  where
    by_outcome :
        (r : Bool × Dispatcher)
        → Sends (render d.pending) env.channels (record d { pending = [] }) r
        → ((delivered env now d.pending r t).0.pending ≡ [])
          × ((delivered env now d.pending r t).0.failed
              ≡ d.failed + count_where (refuses (render d.pending)) env.channels)
          × ((delivered env now d.pending r t).0.sent
              ≡ (if any (takes (render d.pending)) env.channels then suc d.sent else d.sent))
          × ((delivered env now d.pending r t).0.last
              ≡ (if any (takes (render d.pending)) env.channels then now else d.last))
          × ((delivered env now d.pending r t).1 ≡ (
              if any (takes (render d.pending)) env.channels && env.has_db && not env.mark_fails
              then mark_notified now (ids d.pending) t
              else t))
    by_outcome (true, d') h = rw (← h.took) (h.pending, h.failed, ap suc h.sent, refl, refl)
    by_outcome (false, d') h = rw (← h.took) (h.pending, h.failed, h.sent, h.last, refl)

next_above :
    (top : String) (a : Alert)
    → (severity_rank top
        ≤ severity_rank
            (if ltb (severity_rank top) (severity_rank a.severity) then a.severity else top))
      × (severity_rank a.severity
          ≤ severity_rank
              (if ltb (severity_rank top) (severity_rank a.severity) then a.severity else top))
next_above top a =
    if-split
      (λ n. (severity_rank top ≤ severity_rank n) × (severity_rank a.severity ≤ severity_rank n))
      (ltb (severity_rank top) (severity_rank a.severity)) a.severity top
      (λ e. (ground arith, omega arith)) (λ e. (omega arith, ground arith))

top_severity-above :
    (top : String) (alerts : List Alert)
    → (severity_rank top ≤ severity_rank (top_severity top alerts))
      × All (λ a. severity_rank a.severity ≤ severity_rank (top_severity top alerts)) alerts
unfolding top_severity
top_severity-above top [] = (omega arith, tt)
top_severity-above top (a ∷ alerts) =
    let next = if ltb (severity_rank top) (severity_rank a.severity) then a.severity else top in
    let (over_top, over_a) = next_above top a in
    let (above, rest) = top_severity-above next alerts in
    (omega (arith, over_top, above), (omega (arith, over_a, above), rest))

-- No alert of a batch is more severe than the message that is made of it.
pub render-severity :
    (alerts : List Alert)
    → All
        (λ a. severity_rank a.severity ≤ severity_rank (render alerts).severity)
        (render alerts).alerts
unfolding render
render-severity alerts = (top_severity-above "info" alerts).1

-- Batches handed to the dispatcher one after the other.
abbrev pub notify_all : Setup → ℕ → List (List Alert) → Dispatcher × Table → Dispatcher × Table
notify_all env now [] s = s
notify_all env now (alerts ∷ more) s = notify_all env now more (notify env now alerts s.0 s.1)

abbrev pub all_of : List (List Alert) → List Alert
all_of [] = []
all_of (alerts ∷ more) = alerts ++ all_of more

keep-append : (p : Alert → Bool) (xs ys : List Alert) → keep p (xs ++ ys) ≡ keep p xs ++ keep p ys
keep-append p [] ys = refl
keep-append p (x ∷ xs) ys = elim (Bool-cases (p x)) [
  | inl e ↦ rw e (ap (λ l. x ∷ l) (keep-append p xs ys))
  | inr e ↦ rw e (keep-append p xs ys)
]

append_assoc : (xs ys zs : List Alert) → (xs ++ ys) ++ zs ≡ xs ++ (ys ++ zs)
append_assoc [] ys zs = refl
append_assoc (x ∷ xs) ys zs = ap (λ l. x ∷ l) (append_assoc xs ys zs)

append_nil : (xs ys : List Alert) → is_nil ys ≡ true → xs ++ ys ≡ xs
append_nil [] [] h = refl
append_nil (x ∷ xs) [] h = ap (λ l. x ∷ l) (append_nil xs [] h)
append_nil xs (y ∷ ys) h = absurd (cc h)

module _ (env : Setup) (now : ℕ) (some_channel : is_nil env.channels ≡ false)
    (waits : (eqb_ℤ env.notify_digest (pos 0)
        && not (in_quiet_hours env.notify_quiet_hours (env.hour now)))
      ≡ false) where
  notify_queues :
      (alerts : List Alert) (d : Dispatcher) (t : Table)
      → notify env now alerts d t ≡ (queued env d alerts, t)
  unfolding notify
  notify_queues alerts d t =
      let goal = λ (s : Dispatcher × Table). s ≡ (queued env d alerts, t) in
      if-split goal (is_nil env.channels || is_nil (keep (passes env d) alerts)) _ _
        (λ e.
          ap (λ p. (record d { pending = p }, t))
            (sym (append_nil d.pending (keep (passes env d) alerts) (ground arith))))
        (λ _.
          if-split goal
            (eqb_ℤ env.notify_digest (pos 0)
              && not (in_quiet_hours env.notify_quiet_hours (env.hour now)))
            _ _ (λ e. absurd (cc)) (λ _. refl))

  -- With a channel, and while a digest is collected or the hours are quiet, batches handed over one
  -- after the other queue exactly their alerts that pass the severity filter, behind those already
  -- pending and in the order given, and nothing is sent or stamped.
  pub notify_all-pending :
      (batches : List (List Alert)) (d : Dispatcher) (t : Table)
      → notify_all env now batches (d, t)
        ≡ (record d { pending = d.pending ++ keep (passes env d) (all_of batches) }, t)
  unfolding min_severity
  notify_all-pending [] d t =
      ap (λ p. (record d { pending = p }, t)) (sym (append_nil d.pending [] refl))
  notify_all-pending (alerts ∷ more) d t =
      ap (notify_all env now more) (notify_queues alerts d t)
      ∙ (notify_all-pending more (queued env d alerts) t
          ∙ ap (λ p. (record d { pending = p }, t))
              (append_assoc d.pending (keep (passes env d) alerts)
                  (keep (passes env d) (all_of more))
                ∙ ap (λ l. d.pending ++ l) (sym (keep-append (passes env d) alerts (all_of more)))))
