-- ===== src/TaskPool/Placement/Visits.antt =====
-- The placement of connections over each visit of a thread to one of its tasks.
use ugly_ff.Base.{
  is_minus_one, ◌≡◌, ap, ◌∙◌, inl, inr, Bool, true, false, Bool-cases, List, [], ◌∷◌, Option, some,
  if◌then◌else◌, ℤ, arith,
}
use ugly_ff.Time.{RTime}
use ugly_ff.Socket.{poll_recv, poll_send}
use ugly_ff.Task.{
  State, notuse, verify, synced, okay, recycle, Task, is_positive, check_verify_timeout,
  check_signal, check_interval, is_terminate, terminate_by, set_unique, set_tick,
}
use ugly_ff.Task.States.{after}
use ugly_ff.TaskPool.{Conn, holding, Pool, advance, reset, add_okay}
use ugly_ff.TaskPool.Rounds.{
  Answer, success, wait, failure, Virtuals, keep, drop_to_recycle, seen, add_unique, verified,
  verify_visit, timeout_visit, synced_visit, sync_visit, heed, okay_visit, serve, serve_all, polled,
  or_terminate, greet, release, recycled, recycle_visit, reset_visit, advance_visit, free_visit,
}
use ugly_ff.TaskPool.Placement.{
  In, Sound, advance-state, reset-state, add_recycle-Sound, add_sync-Sound, add_okay-Sound,
}

-- The virtual functions, and the other threads, leave a task's state alone.
pub record Steady (v : Virtuals) : Type 0 where
  pub see : (c : Conn) → (v.see c).state ≡ c.task.state
  pub verify_conn : (c : Conn) → (v.verify_conn c).1.state ≡ c.task.state
  pub wait_sync : (c : Conn) → (v.wait_sync c).1.state ≡ c.task.state
  pub recycle_conn : (c : Conn) → (v.recycle_conn c).1.state ≡ c.task.state
  pub unique_add : (c : Conn) → (v.unique_add c).1.state ≡ c.task.state
  pub unique_remove : (c : Conn) → (v.unique_remove c).state ≡ c.task.state
  pub listening_recv : (c : Conn) → (v.listening_recv c).1.state ≡ c.task.state
  pub listening_send : (c : Conn) → (v.listening_send c).1.state ≡ c.task.state

-- what a visit leaves: a sound pool, and a kept task in the state `s`
abbrev pub Leaves : State → Option Conn × Pool → Type 0
Leaves s r = Sound r.1 × In s (keep r.0 [])

drops : (s : State) (c : Conn) (p : Pool) → Sound p → Leaves s (drop_to_recycle c p)
unfolding drop_to_recycle keep
drops s c p h = (add_recycle-Sound (reset c) p (reset-state c) h, tt)

stays : (s : State) (c : Conn) (p : Pool) → c.task.state ≡ s → Sound p → Leaves s (some c, p)
unfolding keep
stays s c p e h = (h, (e, tt))

-- whichever branch is taken
either :
    (b : Bool) (c d : Conn) {s : State}
    → c.task.state ≡ s
    → d.task.state ≡ s
    → (if b then c else d).task.state ≡ s
either true c d e f = e
either false c d e f = f

pub reset_visit-Leaves :
    (v : Virtuals) (s : State) (c : Conn) (p : Pool) → Sound p → Leaves s (reset_visit v c p)
unfolding reset_visit
reset_visit-Leaves v s c p h = drops s c p h

module _ (v : Virtuals) (t : Steady v) where
  add_unique-Leaves :
      (c : Conn) (p : Pool) → c.task.state ≡ verify → Sound p → Leaves verify (add_unique v c p)
  unfolding add_unique holding set_unique keep
  add_unique-Leaves c p e h = elim (Bool-cases (v.unique_add c).0) [
    | inl y ↦ rw y (
      add_sync-Sound v.hooks (holding (set_unique (v.unique_add c).1) c) p (t.unique_add c ∙ e) h,
      tt,
    )
    | inr n ↦ rw n (drops verify (holding (v.unique_add c).1 c) p h)
  ]

  verified-Leaves :
      (a : Answer) (c : Conn) (p : Pool)
      → c.task.state ≡ verify
      → Sound p
      → Leaves verify (verified v a c p)
  unfolding verified
  verified-Leaves success c p e h = add_unique-Leaves c p e h
  verified-Leaves wait c p e h = stays verify c p e h
  verified-Leaves failure c p e h = drops verify c p h

  pub verify_visit-Leaves :
      (c : Conn) (p : Pool) → c.task.state ≡ verify → Sound p → Leaves verify (verify_visit v c p)
  unfolding verify_visit seen holding
  verify_visit-Leaves c p e h = elim (Bool-cases (is_minus_one (poll_recv (v.see c).socket))) [
    | inl y ↦ rw y (drops verify (seen v c) p h)
    | inr n ↦ elim (Bool-cases (is_positive (poll_recv (v.see c).socket))) [
      | inl y ↦
          rw (n, y)
            (verified-Leaves (v.verify_conn (seen v c)).0 (holding (v.verify_conn (seen v c)).1 c) p
              (t.verify_conn (seen v c) ∙ t.see c ∙ e) h)
      | inr m ↦ rw (n, m) (stays verify (seen v c) p (t.see c ∙ e) h)
    ]
  ]

  pub timeout_visit-Leaves :
      (now : RTime) (c : Conn) (p : Pool)
      → c.task.state ≡ verify
      → Sound p
      → Leaves verify (timeout_visit v now c p)
  unfolding timeout_visit
  timeout_visit-Leaves now c p e h = elim (Bool-cases (check_verify_timeout now c.task)) [
    | inl y ↦ rw y (drops verify c p h)
    | inr n ↦ rw n (stays verify c p e h)
  ]

  synced_visit-Leaves :
      (a : Answer) (created : Bool) (c : Conn) (p : Pool)
      → c.task.state ≡ synced
      → Sound p
      → Leaves synced (synced_visit v a created c p)
  unfolding synced_visit keep
  synced_visit-Leaves success created c p e h =
      let after_add = add_okay-Sound v.hooks created c p e h in
      elim (Bool-cases (add_okay v.hooks created c p).0) [
        | inl y ↦ rw y (after_add, tt)
        | inr n ↦ rw n (drops synced c (add_okay v.hooks created c p).1 after_add)
      ]
  synced_visit-Leaves wait created c p e h = stays synced c p e h
  synced_visit-Leaves failure created c p e h = drops synced c p h

  pub sync_visit-Leaves :
      (created : Bool) (c : Conn) (p : Pool)
      → c.task.state ≡ synced
      → Sound p
      → Leaves synced (sync_visit v created c p)
  unfolding sync_visit holding
  sync_visit-Leaves created c p e h =
      synced_visit-Leaves (v.wait_sync c).0 created (holding (v.wait_sync c).1 c) p
        (t.wait_sync c ∙ e) h

  pub advance_visit-Leaves :
      (c : Conn) (p : Pool) → c.task.state ≡ okay → Sound p → Leaves okay (advance_visit v c p)
  unfolding advance_visit keep
  advance_visit-Leaves c p e h =
      (add_recycle-Sound (advance v.hooks c) p (advance-state v.hooks c ∙ ap after e) h, tt)

  checked-state : (now : RTime) (c : Conn) → (heed v (check_signal now c.task)).state ≡ c.task.state
  unfolding heed check_signal check_interval terminate_by set_tick
  checked-state now c = ground arith

  pub okay_visit-Leaves :
      (now : RTime) (c : Conn) (p : Pool)
      → c.task.state ≡ okay
      → Sound p
      → Leaves okay (okay_visit v now c p)
  unfolding okay_visit advance_visit holding
  okay_visit-Leaves now c p e h =
      let c' = holding (heed v (check_signal now c.task)) c in
      let e' : c'.task.state ≡ okay = checked-state now c ∙ e in
      elim (Bool-cases (is_terminate c'.task)) [
        | inl y ↦ rw y (advance_visit-Leaves c' p e' h)
        | inr n ↦ rw n (stays okay c' p e' h)
      ]

  polled-state :
      (r : ℤ) (act : Conn → Bool × Task) (c : Conn)
      → ((d : Conn) → (act d).1.state ≡ d.task.state)
      → (polled v r act c).task.state ≡ c.task.state
  unfolding polled or_terminate holding terminate_by
  polled-state r act c k = ground (arith, k c)

  serve-state : (c : Conn) → (serve v c).task.state ≡ c.task.state
  unfolding serve seen holding
  serve-state c =
      let c₁ = seen v c in
      let c₂ = polled v (poll_recv c₁.task.socket) v.listening_recv c₁ in
      let e₁ : c₁.task.state ≡ c.task.state = t.see c in
      let e₂ : c₂.task.state ≡ c.task.state =
        polled-state (poll_recv c₁.task.socket) v.listening_recv c₁ t.listening_recv ∙ e₁ in
      either (v.see c).socket.use_epoll _ _
        (polled-state (poll_send c₂.task.socket) v.listening_send c₂ t.listening_send ∙ e₂) e₁

  pub serve_all-In : (s : State) (cs : List Conn) → In s cs → In s (serve_all v cs)
  unfolding serve_all
  serve_all-In s [] i = tt
  serve_all-In s (c ∷ cs) i = (serve-state c ∙ i.0, serve_all-In s cs i.1)

  pub greet-state : (c : Conn) → (greet v c).task.state ≡ c.task.state
  unfolding greet holding
  greet-state c = t.listening_recv c

  release-state : (c : Conn) → c.task.state ≡ recycle → (release v c).task.state ≡ notuse
  unfolding release holding
  release-state c e =
      advance-state v.hooks (if c.task.unique_verified then holding (v.unique_remove c) c else c)
      ∙ ap after (either c.task.unique_verified _ _ (t.unique_remove c ∙ e) e)

  recycled-Leaves :
      (a : Answer) (c : Conn) (p : Pool)
      → c.task.state ≡ recycle
      → Sound p
      → Leaves recycle (recycled v a c p)
  unfolding recycled keep
  recycled-Leaves success c p e h = (
    record {
      verifies = h.verifies;
      syncs = h.syncs;
      serves = h.serves;
      recycles = h.recycles;
      frees = (release-state c e, h.frees);
      loses = h.loses;
    },
    tt,
  )
  recycled-Leaves wait c p e h = stays recycle c p e h
  recycled-Leaves failure c p e h = stays recycle c p e h

  pub recycle_visit-Leaves :
      (c : Conn) (p : Pool)
      → c.task.state ≡ recycle
      → Sound p
      → Leaves recycle (recycle_visit v c p)
  unfolding recycle_visit holding
  recycle_visit-Leaves c p e h =
      recycled-Leaves (v.recycle_conn c).0 (holding (v.recycle_conn c).1 c) p (t.recycle_conn c ∙ e)
        h

  pub free_visit-Leaves :
      (c : Conn) (p : Pool) → c.task.state ≡ recycle → Sound p → Leaves recycle (free_visit v c p)
  unfolding free_visit
  free_visit-Leaves c p e h = recycled-Leaves success c p e h
