-- ===== src/Workbench/Session/Audit.antt =====
-- internal/workbench/store.go and artifacts.go: the timeline of a session and its status.
use c_panel_self_migration.Prelude.{
  ℕ, Bool, true, false, List, [], ◌∷◌, ◌++◌, Bytes, lit, eqb, eqb_self, if◌then◌else◌, Option, none,
  some, ◌≡◌, refl, arith, ◌&&◌, ◌||◌, ◌∙◌, Option-cases, inl, inr,
}
use c_panel_self_migration.Workbench.Status.{Status, draft, unknown, same, can_transition}
use c_panel_self_migration.Workbench.Session.{
  TimelineEvent, Session, ContentSelection, SetupMeta, new_session, with_status, with_scope,
  with_artifact,
}

-- One event, read from the status before it: the status after it, or nothing if the event does not
-- fit. A change has to start at that status; only a forced one may leave the matrix.
pub replay_event : Status → TimelineEvent → Option Status
replay_event s ev =
    if eqb ev.action (lit "status_change")
    then (if same ev.from_status s && can_transition s ev.to_status
        then some ev.to_status
        else none)
    else if eqb ev.action (lit "forced_status_change")
    then (if same ev.from_status s then some ev.to_status else none)
    else some s

abbrev pub then_replay : (Status → Option Status) → Option Status → Option Status
then_replay f none = none
then_replay f (some s) = f s

abbrev pub replay : Status → List TimelineEvent → Option Status
replay s [] = some s
replay s (ev ∷ evs) = then_replay (λ t. replay t evs) (replay_event s ev)

-- The events of the timeline lead from `draft` to the status that the session shows.
abbrev pub IsAudited : Session → Type 0
IsAudited sess = replay draft sess.timeline ≡ some sess.status

then_replay-some : (o : Option Status) → then_replay (λ t. some t) o ≡ o
then_replay-some none = refl
then_replay-some (some s) = refl

replay-append :
    (s : Status) (evs : List TimelineEvent) (ev : TimelineEvent) (t : Status)
    → replay s evs ≡ some t
    → replay s (evs ++ ev ∷ []) ≡ replay_event t ev
replay-append s [] ev t h = then_replay-some (replay_event s ev) ∙ ground arith
replay-append s (e ∷ evs) ev t h = elim (Option-cases (replay_event s e)) [
  | inl stuck ↦ absurd (ground arith)
  | inr (u, next) ↦ rw next (replay-append u evs ev t (ground arith))
]

same_self : (s : Status) → same s s ≡ true
same_self (unknown s) = eqb_self s
same_self draft = refl
same_self _ = refl

-- Every change that the store makes to a session keeps the account.
pub new_session-IsAudited :
    (id name source_profile dest_profile artifact_dir version : Bytes) (meta : Option SetupMeta)
    (now : ℕ)
    → IsAudited (new_session id name source_profile dest_profile artifact_dir version meta now)
unfolding new_session
new_session-IsAudited id name source_profile dest_profile artifact_dir version meta now = refl

pub with_status-IsAudited :
    (version : Bytes) (sess : Session) (to : Status) (force : Bool) (reason : Bytes) (now : ℕ)
    → IsAudited sess
    → (force || can_transition sess.status to) ≡ true
    → IsAudited (with_status version sess to force reason now)
unfolding with_status
with_status-IsAudited version sess to force reason now h legal =
    replay-append draft sess.timeline _ sess.status h ∙ legal_event force legal
  where
    legal_event :
        (force : Bool)
        → (force || can_transition sess.status to) ≡ true
        → replay_event sess.status (record {
          timestamp = now;
          action = if force then lit "forced_status_change" else lit "status_change";
          from_status = sess.status;
          to_status = to;
          reason = reason;
          tool_version = version;
        })
          ≡ some to
    legal_event true l = unfold replay_event eqb lit in ground (arith, same_self sess.status)
    legal_event false l = unfold replay_event eqb lit in ground (arith, same_self sess.status)

pub with_scope-IsAudited :
    (version : Bytes) (sess : Session) (content : ContentSelection) (now : ℕ)
    → IsAudited sess
    → IsAudited (with_scope version sess content now)
unfolding with_scope replay_event eqb lit
with_scope-IsAudited version sess content now h = replay-append draft sess.timeline _ sess.status h

pub with_artifact-IsAudited :
    (version : Bytes) (sess : Session) (kind path sha256 : Bytes) (now : ℕ)
    → IsAudited sess
    → IsAudited (with_artifact version sess kind path sha256 now)
unfolding with_artifact replay_event eqb lit
with_artifact-IsAudited version sess kind path sha256 now h =
    replay-append draft sess.timeline _ sess.status h
