-- ===== src/Bus/Local/Stopping.antt =====
-- What `Close` has done when it returns: the stop channel of every subscription with a worker is
-- closed, and the bus takes no more work.
use mathlib.Core.List.{Memᴰ}
use mathlib.Core.List.Memᴰ
use xqua_go.Prelude.{
  ℕ, Bytes, true, false, Bool-cases, List, [], ◌∷◌, none, some, Option-cases, ◌≡◌, ◌≢◌, inl, inr,
  refl, sym, ap, ◌∙◌, subst, arith, ◌==◌, if◌then◌else◌, bytes_eq_iff,
}
use xqua_go.Bus.Snapshot.{SubRef}
use xqua_go.Bus.Message.{Message, Handler, closed}
use xqua_go.Bus.Local.{Local, Subscription, err, add_sub, close, close_stop, close_stops, put_sub}
use xqua_go.Bus.Local.Lifecycle.{close_closed, close-is_closed}
use xqua_go.Bus.Local.Publish.{Wake, publish}

-- A subscription that is marked as stopped has its stop channel closed.
abbrev pub IsMarked : Local → Type 0
IsMarked b =
    (id : ℕ) (s : Subscription)
    → b.sub_at id ≡ some s
    → s.stop_closed ≡ true
    → b.stop_done s.stop ≡ true

-- The bus after the first `closeStop` of the activation `u`.
abbrev stopped : Local → ℕ → Subscription → Local
stopped b id u = record (put_sub b id (record u { stop_closed = true })) {
  stop_done = λ n. if n == u.stop then true else b.stop_done n;
}

close_stop_missing : (b : Local) (id : ℕ) → b.sub_at id ≡ none → close_stop b id ≡ b
unfolding close_stop
close_stop_missing b id x = rw (x, close_stop)

close_stop_again :
    (b : Local) (id : ℕ) (u : Subscription)
    → b.sub_at id ≡ some u
    → u.stop_closed ≡ true
    → close_stop b id ≡ b
unfolding close_stop
close_stop_again b id u x o = rw (x, close_stop) (rw o)

close_stop_first :
    (b : Local) (id : ℕ) (u : Subscription)
    → b.sub_at id ≡ some u
    → u.stop_closed ≡ false
    → close_stop b id ≡ stopped b id u
unfolding close_stop
close_stop_first b id u x o = rw (x, close_stop) (rw o)

-- What holds before, and after a first call, holds after any call.
close_stop-cases :
    (P : Local → Type 0) (b : Local) (id : ℕ)
    → P b
    → ((u : Subscription) → b.sub_at id ≡ some u → P (stopped b id u))
    → P (close_stop b id)
close_stop-cases P b id same changed = elim (Option-cases (b.sub_at id)) [
  | inl x ↦ subst P (sym (close_stop_missing b id x)) same
  | inr (u, x) ↦ elim (Bool-cases u.stop_closed) [
    | inl o ↦ subst P (sym (close_stop_again b id u x o)) same
    | inr o ↦ subst P (sym (close_stop_first b id u x o)) (changed u x)
  ]
]

close_stop-keeps :
    (b : Local) (id n : ℕ) → b.stop_done n ≡ true → (close_stop b id).stop_done n ≡ true
close_stop-keeps b id n h =
    close_stop-cases (λ c. c.stop_done n ≡ true) b id h (λ u x. ground arith)

close_stops-keeps :
    (ids : List ℕ) (b : Local) (n : ℕ)
    → b.stop_done n ≡ true
    → (close_stops b ids).stop_done n ≡ true
unfolding close_stops
close_stops-keeps [] b n h = h
close_stops-keeps (id ∷ ids) b n h =
    close_stops-keeps ids (close_stop b id) n (close_stop-keeps b id n h)

close_stop-stops :
    (b : Local) (id : ℕ) (s : Subscription)
    → IsMarked b
    → b.sub_at id ≡ some s
    → (close_stop b id).stop_done s.stop ≡ true
close_stop-stops b id s marked x = elim (Bool-cases s.stop_closed) [
  | inl o ↦ ap (λ (c : Local). c.stop_done s.stop) (close_stop_again b id s x o) ∙ marked id s x o
  | inr o ↦ ap (λ (c : Local). c.stop_done s.stop) (close_stop_first b id s x o) ∙ ground arith
]

-- A subscription keeps its stop channel.
close_stop-same_stop :
    (b : Local) (id j : ℕ) (s : Subscription)
    → b.sub_at j ≡ some s
    → (t : Subscription) × ((close_stop b id).sub_at j ≡ some t) × (t.stop ≡ s.stop)
close_stop-same_stop b id j s x =
    close_stop-cases (λ c. (t : Subscription) × (c.sub_at j ≡ some t) × (t.stop ≡ s.stop)) b id
      (s, x, refl)
      (λ u y. elim (Bool-cases (j == id)) [
        | inl own ↦
            let at_j : b.sub_at j ≡ some u = ap b.sub_at (ground arith) ∙ y in
            let same : u ≡ s = cc in
            (record u { stop_closed = true }, rw own refl, ap (λ (v : Subscription). v.stop) same)
        | inr other ↦ (s, rw other x, refl)
      ])

close_stop-IsMarked : (b : Local) (id : ℕ) → IsMarked b → IsMarked (close_stop b id)
close_stop-IsMarked b id marked = close_stop-cases IsMarked b id marked (λ u y j t x o.
    elim (Bool-cases (j == id)) [
      | inl own ↦
          let same : record u { stop_closed = true } ≡ t = own_sub u t (rw own at x) in
          let stop_same : u.stop ≡ t.stop = ap (λ (v : Subscription). v.stop) same in ground arith
      | inr other ↦ let before = marked j t (rw other at x) o in ground arith
    ])
  where
    own_sub :
        (u t : Subscription)
        → some (record u { stop_closed = true }) ≡ some t
        → record u { stop_closed = true } ≡ t
    own_sub u t e = cc

close_stops-stops :
    (ids : List ℕ) (b : Local) (id : ℕ) (s : Subscription)
    → IsMarked b
    → Memᴰ id ids
    → b.sub_at id ≡ some s
    → (close_stops b ids).stop_done s.stop ≡ true
unfolding close_stops
close_stops-stops [] b id s marked m x = absurd (Memᴰ.not-nil m)
close_stops-stops (i ∷ ids) b id s marked m x = elim (Memᴰ.cases_cons m) [
  | inl here_ ↦
      close_stops-keeps ids (close_stop b i) s.stop
        (close_stop-stops b i s marked (subst (λ k. b.sub_at k ≡ some s) here_ x))
  | inr later ↦
      let (t, y, same) = close_stop-same_stop b i id s x in
      let rest =
        close_stops-stops ids (close_stop b i) id t (close_stop-IsMarked b i marked) later y in
      subst (λ n. (close_stops (close_stop b i) ids).stop_done n ≡ true) same rest
]

-- When `Close` returns on an open bus, where the workers that it waits for neither reopen the bus
-- nor a stop channel, the stop channel of every subscription with a worker is closed, publishing on a
-- subject and subscribing a handler to a pattern are refused with `closed` and change nothing, and so
-- does closing again. Subscriptions that are marked as stopped have their channels closed before.
pub close-stops_all :
    (meanwhile later : Local → Local) (wait : Local → SubRef → Wake × Local)
    (without_cancel : ℕ → ℕ) (b : Local) (id : ℕ) (s : Subscription) (ctx : ℕ) (msg : Message)
    (c : ℕ) (pattern queue : Bytes) (h : Handler)
    → b.is_closed ≡ false
    → IsMarked b
    → ((d : Local) → d.is_closed ≡ true → (meanwhile d).is_closed ≡ true)
    → ((d : Local) (n : ℕ) → d.stop_done n ≡ true → (meanwhile d).stop_done n ≡ true)
    → Memᴰ id b.active
    → b.sub_at id ≡ some s
    → msg.subject ≢ []
    → let b' = close meanwhile b in
      (b'.stop_done s.stop ≡ true)
      × (publish wait without_cancel b' ctx msg ≡ (some closed, b'))
      × (add_sub later b' (c ∷ pattern) queue (some h) ≡ some (err closed, b'))
      × (close later b' ≡ b')
close-stops_all meanwhile later wait without_cancel b id s ctx msg c pattern queue h open_yet marked
      keeps done_keeps active x ne =
    let b' = close meanwhile b in
    let is_closed_ = close-is_closed meanwhile b keeps in
    (
      stops,
      refuses_publish b' is_closed_,
      refuses_add b' is_closed_,
      close_closed later b' is_closed_,
    )
  where
    stops : (close meanwhile b).stop_done s.stop ≡ true
    stops =
        unfold close in
        rw open_yet (
          done_keeps _ s.stop (
            close_stops-stops b.active (record b { is_closed = true; closed_ch = true }) id s marked
              active x))

    refuses_publish :
        (d : Local) → d.is_closed ≡ true → publish wait without_cancel d ctx msg ≡ (some closed, d)
    refuses_publish d e = unfold publish in rw e (ground (arith, bytes_eq_iff msg.subject []))

    refuses_add :
        (d : Local)
        → d.is_closed ≡ true
        → add_sub later d (c ∷ pattern) queue (some h) ≡ some (err closed, d)
    refuses_add d e = unfold add_sub in rw e
