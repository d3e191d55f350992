-- ===== src/Workbench/Session.antt =====
-- internal/workbench/types.go, store.go and artifacts.go: a session and the changes that the store
-- makes to one. An instant is a number; the text of `scopeSummary` is built as the source does.
pub mod Audit
use c_panel_self_migration.Prelude.{
  ℕ, Bool, true, false, List, [], ◌∷◌, ◌++◌, Bytes, lit, eqb, any, if◌then◌else◌, Option, none,
  some,
}
use c_panel_self_migration.Workbench.Status.{Status, draft, unknown}

pub data Step : Type 0 where
  setup preflight inventory diff_policy_checklist planning apply_core apply_email : Step
  apply_dns apply_cron verify cutover archive : Step

pub record ArtifactEntry : Type 0 where
  pub kind : Bytes
  pub path : Bytes
  pub sha256 : Bytes
  pub attached_at : ℕ

pub record TimelineEvent : Type 0 where
  pub timestamp : ℕ
  pub action : Bytes
  pub from_status : Status
  pub to_status : Status
  pub reason : Bytes
  pub tool_version : Bytes

pub record Endpoint : Type 0 where
  pub host : Bytes
  pub port : ℕ
  pub account : Bytes

pub record ContentSelection : Type 0 where
  pub files : Bool
  pub databases : Bool
  pub email : Bool
  pub email_config : Bool
  pub cron : Bool
  pub dns : Bool

pub record SetupMeta : Type 0 where
  pub primary_domain : Bytes
  pub notes : Bytes
  pub source : Endpoint
  pub destination : Endpoint
  pub content : ContentSelection
  pub scope_confirmed_at : Option ℕ

pub record Session : Type 0 where
  pub id : Bytes
  pub name : Bytes
  pub source_profile : Bytes
  pub destination_profile : Bytes
  pub status : Status
  pub current_step : Step
  pub artifact_dir : Bytes
  pub created_at : ℕ
  pub updated_at : ℕ
  pub last_error : Bytes
  pub artifacts : List ArtifactEntry
  pub timeline : List TimelineEvent
  pub tool_version : Bytes
  pub meta : Option SetupMeta

-- The zero value of `Status`, which an event carries that changes no status.
abbrev pub no_status : Status
no_status = unknown []

unfoldable pub new_session :
    (id name source_profile dest_profile artifact_dir version : Bytes)
    → Option SetupMeta
    → ℕ
    → Session
new_session id name source_profile dest_profile artifact_dir version meta now = record {
  id = id;
  name = name;
  source_profile = source_profile;
  destination_profile = dest_profile;
  status = draft;
  current_step = setup;
  artifact_dir = artifact_dir;
  created_at = now;
  updated_at = now;
  last_error = [];
  artifacts = [];
  timeline = [];
  tool_version = version;
  meta = meta;
}

-- What `SetStatus` does to the session that it has read.
unfoldable pub with_status : Bytes → Session → Status → Bool → Bytes → ℕ → Session
with_status version sess to force reason now =
    let event : TimelineEvent = record {
      timestamp = now;
      action = if force then lit "forced_status_change" else lit "status_change";
      from_status = sess.status;
      to_status = to;
      reason = reason;
      tool_version = version;
    } in
    record sess { status = to; updated_at = now; timeline = sess.timeline ++ event ∷ [] }

abbrev pub empty_endpoint : Endpoint
empty_endpoint = record { host = []; port = 0; account = [] }

abbrev pub no_content : ContentSelection
no_content = record {
  files = false;
  databases = false;
  email = false;
  email_config = false;
  cron = false;
  dns = false;
}

-- `&SetupMeta{}`
abbrev pub empty_setup : SetupMeta
empty_setup = record {
  primary_domain = [];
  notes = [];
  source = empty_endpoint;
  destination = empty_endpoint;
  content = no_content;
  scope_confirmed_at = none;
}

abbrev pub setup_or_empty : Option SetupMeta → SetupMeta
setup_or_empty none = empty_setup
setup_or_empty (some m) = m

abbrev area : Bool → Bytes → List Bytes
area true name = name ∷ []
area false name = []

-- `strings.Join(areas, ", ")`
pub join : List Bytes → Bytes
join [] = []
join (a ∷ []) = a
join (a ∷ b ∷ rest) = a ++ lit ", " ++ join (b ∷ rest)

abbrev summary_of : List Bytes → Bytes
summary_of [] = lit "scope confermato: nessuna area"
summary_of (a ∷ areas) = lit "scope confermato: " ++ join (a ∷ areas)

unfoldable pub scope_summary : ContentSelection → Bytes
unfolding join
scope_summary c = summary_of (
    area c.files (lit "file")
    ++ (area c.databases (lit "database")
        ++ (area c.email (lit "email")
            ++ (area c.email_config (lit "config email")
                ++ (area c.cron (lit "cron") ++ area c.dns (lit "DNS (manuale)"))))))

-- What `ConfirmScope` does to the session that it has read.
unfoldable pub with_scope : Bytes → Session → ContentSelection → ℕ → Session
with_scope version sess content now =
    let meta = setup_or_empty sess.meta in
    let event : TimelineEvent = record {
      timestamp = now;
      action = lit "scope_confirmed";
      from_status = no_status;
      to_status = no_status;
      reason = scope_summary content;
      tool_version = version;
    } in
    record sess {
      meta = some (record meta { content = content; scope_confirmed_at = some now });
      updated_at = now;
      timeline = sess.timeline ++ event ∷ [];
    }

-- What `AttachArtifact` does to the session that it has read, for a file that it has copied.
unfoldable pub with_artifact : Bytes → Session → (kind path sha256 : Bytes) → ℕ → Session
with_artifact version sess kind path sha256 now =
    let attached : ArtifactEntry = record {
      kind = kind;
      path = path;
      sha256 = sha256;
      attached_at = now;
    } in
    let event : TimelineEvent = record {
      timestamp = now;
      action = lit "attach_artifact";
      from_status = no_status;
      to_status = no_status;
      reason = lit "kind=" ++ kind ++ lit " sha256=" ++ sha256;
      tool_version = version;
    } in
    record sess {
      artifacts = sess.artifacts ++ attached ∷ [];
      updated_at = now;
      timeline = sess.timeline ++ event ∷ [];
    }
