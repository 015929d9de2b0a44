-- ===== src/Product.antt =====
-- apps/web/src/ProductPage.tsx: the product console. A reply of the server, and a text that is parsed, are
-- arguments; JSON that the page only hands on is the text of it. Impersonation is in Session/Impersonation.
pub mod Invites
pub mod Loading
mod Tests
use go_platform_starter.Prelude.{
  ℕ, suc, Bool, true, false, Option, none, some, List, [], ◌∷◌, ◌++◌, if◌then◌else◌, get_or_else,
  map_some, Text, codes, is_empty, join,
}

-- What a request gives: a value, or an error with its message where it is an `Error`.
pub data Reply (A : Type 0) : Type 0 where
  done : A → Reply A
  failed : Option Text → Reply A

pub data Toast : Type 0 where
  success error : Text → Toast

pub record ProductRecord : Type 0 where
  pub id : ℕ
  pub kind : Text
  pub name : Text
  pub status : Text
  pub payload : Text

pub record Form : Type 0 where
  pub kind : Text
  pub name : Text
  pub subject_id : Text
  pub payload : Text
  pub expires_at : Text

-- The state of the page; `toasts` are those shown, the newest first.
pub record Page : Type 0 where
  pub overview : Option Text
  pub analytics : Option Text
  pub records : List ProductRecord
  pub audit : List Text
  pub busy : Bool
  pub form : Form
  pub secret : Text
  pub simulation : Text
  pub search_results : List Text
  pub toasts : List Toast

abbrev pub show : Toast → Page → Page
show t p = record p { toasts = t ∷ p.toasts }

-- The replies to the four requests of `load`.
pub record Loads : Type 0 where
  pub overview : Reply Text
  pub records : Reply (Option (List ProductRecord))
  pub audit : Reply (Option (List Text))
  pub analytics : Reply Text
  -- the message of the one that failed first
  pub first_error : Option Text

-- `.catch(() => ({ items: [] }))`
abbrev pub audit_items : Reply (Option (List Text)) → List Text
audit_items (done items) = get_or_else items []
audit_items (failed e) = []

abbrev pub loaded : Text → Option (List ProductRecord) → List Text → Text → Page → Page
loaded overview records audit analytics p = record p {
  overview = some overview;
  analytics = some analytics;
  records = get_or_else records [];
  audit = audit;
}

-- What `Promise.all` gives is an error where any of the three promises without a `catch` does.
abbrev pub load_with :
    Option Text
    → Reply Text
    → Reply (Option (List ProductRecord))
    → List Text
    → Reply Text
    → Page
    → Page × Reply Unit
load_with e (done o) (done rs) audit (done a) p = (loaded o rs audit a p, done tt)
load_with e _ _ audit _ p = (p, failed e)

-- `load`, which hands its error on.
unfoldable pub load : Loads → Page → Page × Reply Unit
load r p = load_with r.first_error r.overview r.records (audit_items r.audit) r.analytics p

-- `toast("error", error instanceof Error ? error.message : fallback)`, where something was thrown
abbrev pub report : Text → Reply Unit → Page → Page
report fallback (done _) p = p
report fallback (failed e) p = show (error (get_or_else e fallback)) p

-- The effect that loads the page.
abbrev pub open_page : Loads → Page → Page
open_page r p =
    let (q, outcome) = load r (record p { busy = true }) in
    record (report (codes "Could not load product data") outcome q) { busy = false }

-- The record that `createRecord` sends, with the fields that may be left out.
pub record Creation : Type 0 where
  pub kind : Text
  pub name : Text
  pub payload : Text
  pub subject_id : Option Text
  pub expires_at : Option Text

abbrev filled : Text → Option Text
filled t = if is_empty t then none else some t

abbrev pub creation : Form → Text → Creation
creation f payload = record {
  kind = f.kind;
  name = f.name;
  payload = payload;
  subject_id = filled f.subject_id;
  expires_at = filled f.expires_at;
}

abbrev pub created : Option Text → Page → Page
created secret p = show (success (codes "Product record created.")) (record p {
  secret = get_or_else secret [];
  form = record p.form { name = []; payload = codes "{}" };
})

-- What follows the parsing of the payload: the request's reply, then loading.
abbrev create_parsed : Reply Text → Reply (Option Text) → Loads → Page → Page × Reply Unit
create_parsed (failed e) reply r p = (p, failed e)
create_parsed (done payload) (failed e) r p = (p, failed e)
create_parsed (done payload) (done secret) r p = load r (created secret p)

-- `createRecord`, with what `JSON.parse` gives of the payload.
unfoldable pub create_record : Reply Text → Reply (Option Text) → Loads → Page → Page
unfolding load
create_record parsed reply r p =
    let (q, outcome) = create_parsed parsed reply r (record p { busy = true }) in
    record (report (codes "Could not create product record") outcome q) { busy = false }

-- The requests that `createRecord` sends.
abbrev pub creations : Reply Text → Page → List Creation
creations (failed e) p = []
creations (done payload) p = creation p.form payload ∷ []

abbrev update_replied : Reply Unit → Loads → Page → Page × Reply Unit
update_replied (failed e) r p = (p, failed e)
update_replied (done _) r p = load r p

-- `updateRecord`
abbrev pub update_record : Reply Unit → Loads → Page → Page
update_record reply r p =
    let (q, outcome) = update_replied reply r p in
    report (codes "Could not update record") outcome q

-- `runSearch`
abbrev pub run_search : Reply (Option (List Text)) → Page → Page
run_search (done items) p = record p { search_results = get_or_else items [] }
run_search (failed e) p = show (error (get_or_else e (codes "Search failed"))) p

abbrev pub verdict : Bool → List Text → Text
verdict allowed sources =
    (if allowed then codes "Allowed" else codes "Denied")
    ++ elim sources [ [] ↦ [] | source ∷ rest ↦ codes " via " ++ join (codes ", ") (source ∷ rest) ]

-- `simulate`
abbrev pub simulate : Reply (Bool × List Text) → Page → Page
simulate (done (allowed, sources)) p = record p { simulation = verdict allowed sources }
simulate (failed e) p = show (error (get_or_else e (codes "Simulation failed"))) p
