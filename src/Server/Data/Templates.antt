-- ===== src/Server/Data/Templates.antt =====
-- server.c and templatereg.c: the templates that a greeter is told of.
use spawny.Base.{
  ℕ, ◌^◌, ◌<◌, ◌≡◌, refl, List, [], ◌∷◌, map, some, true, length, ltb, lt→ltb, All, All-get_elem?,
}
use spawny.Templates.{Template, Registry, details, template_get, template_details_get}
use spawny.Templates.Ids.{IsLog}
use spawny.Templates.Find.{Issued}
use spawny.Templates.Laws.{get-details}
use spawny.Client.{ProtoTemplate}
use spawny.Server.Data.{templates_of, load_templates}

-- The template as it is told.
abbrev pub shown : Template → ProtoTemplate
shown t = record { id = some t.id; name = some t.name; icon = t.icon }

templates_of-map :
    (r : Registry) (ts : List Template)
    → All (λ t. template_details_get t.id r ≡ some (some (details t))) ts
    → templates_of r (map (λ t. t.id) ts) ≡ some (map shown ts)
unfolding templates_of
templates_of-map r [] h = refl
templates_of-map r (t ∷ ts) h = rw (h.0, templates_of-map r ts h.1)

-- With a logarithm as documented, a valid registry, a counter below 2 ^ 32 and fewer than 2 ^ 31
-- templates: the ones that are told are those of the registry, in their order, each with its id,
-- name and icon.
pub load_templates-shown :
    (log10 : ℕ → ℕ) (law : IsLog log10) (c : ℕ) (ts : List Template)
    → Issued log10 law 0 c ts
    → c < 2 ^ 32
    → length ts < 2 ^ 31
    → load_templates (record { array = some ts; counter = c }) ≡ some (map shown ts)
unfolding load_templates template_get
load_templates-shown log10 law c ts v fits few =
    let listed : ltb (length ts) (2 ^ 31) ≡ true = lt→ltb (length ts) (2 ^ 31) few in
    rw listed (
      templates_of-map (record { array = some ts; counter = c }) ts
        (All-get_elem? _ ts (λ i t e. (get-details log10 law c i ts t v fits few e).3)))
