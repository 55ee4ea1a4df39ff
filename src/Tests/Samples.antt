-- ===== src/Tests/Samples.antt =====
-- A space with one scope, one type and one memory, and an identity that may write there.
use Prim.Native.Char.{code}
use engraphy.Base.{
  ℕ, ◌+◌, ◌-◌, String, true, false, not, none, some, List, [], ◌∷◌, pos, ◌==◌, nat_eq,
}
use engraphy.Core.Json.{end}
use engraphy.Core.AttrSpec.{Dates, Spec}
use engraphy.Core.Store.{Db, Node, Session, PendingRow, Vector, active, closed}
use engraphy.Core.Dedup.Bands.{BandThresholds}
use engraphy.Core.Dedup.Envelope.{Env, Incoming}

unfoldable pub codes : String → List ℕ
codes String.[] = []
codes (String.◌∷◌ c s) = code c ∷ codes s

-- The gap between the first coordinates.
unfoldable pub gap : Vector → Vector → ℕ
gap (pos a ∷ _) (pos b ∷ _) = (a - b) + (b - a)
gap _ _ = 1000000

abbrev pub dates : Dates
dates = record { is_decimal = λ c. true; fromisoformat = λ s. true }

abbrev pub env : Env
env = record {
  distance = gap;
  round2 = λ x. x;
  isoformat = λ n. "now";
  model_stamp = "model";
  unicode = record { lower = codes; is_alnum = λ c. not (c == 32) };
  dates = dates;
}

abbrev pub alice : Session
alice = record { space = "main"; principal = "alice" }

abbrev pub open_spec : Spec
open_spec = record { required = []; optional = []; requires = []; closed = false }

abbrev pub bands : BandThresholds
bands = record { t_high = pos 950000; t_low = pos 800000 }

abbrev pub old_node : Node
old_node = record {
  id = 1;
  space = "main";
  node_type = "note";
  scope = "home";
  title = "tea time";
  body = "tea is at five";
  attrs = end;
  status = active;
  canonical = none;
  embedding = pos 5 ∷ [];
  embedding_model = "model";
  source_client = "cli";
  source_session = none;
  author = "alice";
  extra_search = "";
  created_at = 0;
  recall_count = 0;
  last_recalled_at = none;
}

abbrev pub incoming_at : ℕ → String → Incoming
incoming_at place body = record {
  node_type = "note";
  scope = "home";
  title = "coffee";
  body = body;
  attrs = end;
  embedding = pos place ∷ [];
  source_client = "cli";
  source_session = none;
  links = [];
  extra_search = "";
}

-- Far from the memory, in the band between, and on it.
abbrev pub far : Incoming
far = incoming_at 900000 "coffee is at nine"

abbrev pub between : Incoming
between = incoming_at 100005 "coffee is at nine"

abbrev pub restated : Incoming
restated = incoming_at 5 "tea is at five"

abbrev pub novel : Incoming
novel = incoming_at 5 "coffee is at nine"

abbrev pub parked : PendingRow
parked = record {
  id = 7;
  space = "main";
  author = "alice";
  expires_at = 50;
  created_at = 0;
  payload = record {
    node_type = "note";
    scope = "home";
    title = "coffee";
    body = "coffee is at nine";
    attrs = end;
    source_client = "cli";
    source_session = none;
    embedding = pos 100005 ∷ [];
    candidates = [];
    links = [];
    extra_search = "";
  };
}

abbrev pub db : Db
db = record {
  nodes = old_node ∷ [];
  edges = [];
  edge_types = [];
  edge_rules =
      record { space = "main"; edge_type = "same_topic"; src_type = "note"; dst_type = "note" }
      ∷ record { space = "main"; edge_type = "supersedes"; src_type = "note"; dst_type = "note" }
      ∷ [];
  scopes =
      record {
        space = "main";
        id = "home";
        owner = "alice";
        visibility = closed;
        ambient = true;
        is_archived = false;
        display_name = "Home";
        description = some "what happens at home";
        hints = [];
        created_at = 0;
      }
      ∷ [];
  admins = [];
  grants = [];
  types = record { space = "main"; name = "note"; spec = open_spec } ∷ [];
  config = [];
  dedup_log = [];
  audit_log = [];
  pending = parked ∷ [];
  inbox = [];
  metrics = [];
  next_id = 10;
  now = 20;
}
