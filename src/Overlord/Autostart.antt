-- ===== src/Overlord/Autostart.antt =====
-- Which services `autostart` and `try_start_pending` start, and which they leave waiting.
use vigil_rs.Prelude.{
  Bool, true, false, not, ◌&&◌, ◌||◌, ◌≡◌, refl, ◌∙◌, List, [], ◌∷◌, String, arith, contains,
  contains-append, keep, str_eq, eq_iff, Bool-cases, inl, inr,
}
use vigil_rs.Overlord.State.{Overlord, Host, start, svc_cmd}
use vigil_rs.Overlord.Ordering.{after_deps_running}
use vigil_rs.Overlord.Lifecycle.{
  enabled_services, defer, autostart_each, autostart, start_ready, try_start_pending,
}
use vigil_rs.Overlord.View.{
  IsSameView, IsSameView-refl, IsSameView-trans, svc_cmd-IsCommanded, sent_to, has,
  after_deps_running-IsSameView,
}

pub contains-keep :
    (p : String → Bool) (names : List String) (n : String)
    → contains (keep p names) n ≡ (contains names n && p n)
unfolding contains
contains-keep p [] n = refl
contains-keep p (name ∷ rest) n = ground (arith, contains-keep p rest n, eq_iff name n)

module _ {F : Type 0} where
  abbrev pub starts_now : Overlord F → String → Bool
  starts_now o n = after_deps_running o n && has o n

  -- Of these names, those whose dependencies run get a start, and the others wait.
  pub record IsAutostarted (names : List String) (o o' : Overlord F) : Type 0 where
    pub view : IsSameView o o'
    pub sent : o'.sent ≡ sent_to start (starts_now o) names o.sent
    pub pending :
        (n : String)
        → contains o'.pending_autostart n
          ≡ (contains o.pending_autostart n || (contains names n && not (after_deps_running o n)))

  contains-defer :
      (name : String) (o : Overlord F) (n : String)
      → contains (defer name o).pending_autostart n
        ≡ (contains o.pending_autostart n || str_eq name n)
  unfolding defer contains
  contains-defer name o n =
      ground (arith, contains-append o.pending_autostart (name ∷ []) n, eq_iff name n)

  -- One round: the step is a start or a deferral.
  one_more :
      (name : String) (rest : List String) (o next o' : Overlord F)
      → IsAutostarted (name ∷ []) o next
      → IsAutostarted rest next o'
      → IsAutostarted (name ∷ rest) o o'
  unfolding contains
  one_more name rest o next o' one r =
      let ready = after_deps_running-IsSameView o next one.view in
      let now : starts_now next ≡ starts_now o = λ i n. ready n i && one.view.there n i in
      record {
        view = IsSameView-trans one.view r.view;
        sent = r.sent ∙ (λ i. sent_to start (now i) rest (one.sent i));
        pending = λ n. ground (arith, r.pending n, one.pending n, ready n);
      }

  started :
      (h : Host F) (name : String) (o : Overlord F)
      → after_deps_running o name ≡ true
      → IsAutostarted (name ∷ []) o (svc_cmd h start name o).1
  unfolding contains
  started h name o ready =
      let c = svc_cmd-IsCommanded h start name o in
      record {
        view = c.view;
        sent = ground (arith, c.sent, ready);
        pending = λ n. ground (arith, c.pending, ready, eq_iff name n);
      }

  deferred :
      (name : String) (o : Overlord F)
      → after_deps_running o name ≡ false
      → IsAutostarted (name ∷ []) o (defer name o)
  unfolding contains defer has
  deferred name o wait = elim (Bool-cases (contains o.pending_autostart name)) [
    | inl known ↦
        rw (defer, known)
          (record {
            view = IsSameView-refl o;
            sent = ground (arith, wait);
            pending = λ n. ground (arith, known, eq_iff name n);
          })
    | inr new ↦
        rw (defer, new)
          (record {
            view = record {
              plan = refl;
              running = λ n. refl;
              there = λ n. refl;
              config = λ n. refl;
            };
            sent = ground (arith, wait);
            pending = λ n.
                ground
                  (arith, wait, eq_iff name n, contains-append o.pending_autostart (name ∷ []) n);
          })
  ]

  autostart_each-IsAutostarted :
      (h : Host F) (names : List String) (o : Overlord F)
      → IsAutostarted names o (autostart_each h names o)
  unfolding autostart_each contains
  autostart_each-IsAutostarted h [] o = record {
    view = IsSameView-refl o;
    sent = refl;
    pending = λ n. ground arith;
  }
  autostart_each-IsAutostarted h (name ∷ rest) o = elim (Bool-cases (after_deps_running o name)) [
    | inl ready ↦
        let next = (svc_cmd h start name o).1 in
        rw (autostart_each, ready)
          (one_more name rest o next (autostart_each h rest next) (started h name o ready)
            (autostart_each-IsAutostarted h rest next))
    | inr wait ↦
        let next = defer name o in
        rw (autostart_each, wait)
          (one_more name rest o next (autostart_each h rest next) (deferred name o wait)
            (autostart_each-IsAutostarted h rest next))
  ]

  -- Autostart goes through the enabled services of the plan in order. It sends a start to each that
  -- exists and whose dependencies run by the reports so far, and to no other; those with a dependency
  -- that does not run, and only they, join the waiting ones.
  pub autostart-IsAutostarted :
      (h : Host F) (o : Overlord F)
      → IsAutostarted (enabled_services o.plan.services) o (autostart h o)
  unfolding autostart
  autostart-IsAutostarted h o = autostart_each-IsAutostarted h (enabled_services o.plan.services) o

  -- The waiting services of these names get a start and wait no longer.
  record IsReleased (names : List String) (o o' : Overlord F) : Type 0 where
    view : IsSameView o o'
    sent : o'.sent ≡ sent_to start (has o) names o.sent
    pending :
        (n : String)
        → contains o'.pending_autostart n
          ≡ (contains o.pending_autostart n && not (contains names n))

  start_ready-IsReleased :
      (h : Host F) (names : List String) (o : Overlord F)
      → IsReleased names o (start_ready h names o)
  unfolding start_ready contains has
  start_ready-IsReleased h [] o = record {
    view = IsSameView-refl o;
    sent = refl;
    pending = λ n. ground arith;
  }
  start_ready-IsReleased h (name ∷ rest) o =
      let is_other : String → Bool = λ n. not (str_eq n name) in
      let kept : Overlord F = record o { pending_autostart = keep is_other o.pending_autostart } in
      let c = svc_cmd-IsCommanded h start name kept in
      let next = (svc_cmd h start name kept).1 in
      let r = start_ready-IsReleased h rest next in
      let there : has next ≡ has o = λ i n. c.view.there n i in
      record {
        view =
            IsSameView-trans
              (record {
                plan = c.view.plan;
                running = c.view.running;
                there = c.view.there;
                config = c.view.config;
              })
              r.view;
        sent = r.sent ∙ (λ i. sent_to start (there i) rest (c.sent i));
        pending = λ n. ground (
          arith,
          r.pending n,
          c.pending,
          contains-keep is_other o.pending_autostart n,
          eq_iff name n,
          eq_iff n name,
        );
      }

  -- The retry starts, in the order in which they wait, the waiting services that exist and whose
  -- dependencies all run; they wait no longer, and the others go on waiting.
  pub try_start_pending-IsReleased :
      (h : Host F) (o : Overlord F)
      → let o' = try_start_pending h o in
        (o'.sent ≡ sent_to start (has o) (keep (after_deps_running o) o.pending_autostart) o.sent)
        × ((n : String)
            → contains o'.pending_autostart n
              ≡ (contains o.pending_autostart n && not (after_deps_running o n)))
  unfolding try_start_pending
  try_start_pending-IsReleased h o =
      let r = start_ready-IsReleased h (keep (after_deps_running o) o.pending_autostart) o in
      (
        r.sent,
        λ n.
            ground (arith, r.pending n, contains-keep (after_deps_running o) o.pending_autostart n),
      )

  pub try_start_pending-IsSameView :
      (h : Host F) (o : Overlord F) → IsSameView o (try_start_pending h o)
  unfolding try_start_pending
  try_start_pending-IsSameView h o =
      (start_ready-IsReleased h (keep (after_deps_running o) o.pending_autostart) o).view
