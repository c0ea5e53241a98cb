-- ===== src/Tests/Cache.antt =====
-- The theorems on the cached products, with a JSON that knows one product.
use text.Mathlib.Text.{◌==◌ as str_eq}
use text.Mathlib.TextEquality.{eq_iff}
use text.Mathlib.TextLemmas.{append_cancel_left, length-append}
use Prim.Native.String.{count, ◌++◌ as str_append}
use native.Mathlib.Decide.{ℕ_discrete}
use golang_gin.Prelude.{if◌then◌else◌, zero, suc, ap, ◌+◌, ◌∙◌}
use golang_gin.Prelude.{
  String, ℕ, ◌≡◌, refl, sym, ◌≢◌, true, none, some, List, [], ◌∷◌, Bool-cases, inl, inr, All, arith,
}
use golang_gin.Prelude.Int.{pos}
use golang_gin.Errors.{Result, ok, err, foreign}
use golang_gin.Prelude.{Option}
use golang_gin.Db.{smooth}
use golang_gin.Db.Laws.{find_key}
use golang_gin.Auth.{AccessClaims}
use golang_gin.Cache.{Json, Redis, get, set}
use golang_gin.Cache.Laws.{get-set}
use golang_gin.Product.{edited}
use golang_gin.Product.Search
use golang_gin.Product.Cached.{World, search, search_key}
use golang_gin.Product.Collisions.{joined, search-search}
use golang_gin.Product.Service.{
  CreateRequest, UpdateRequest, UpdateEnv, ProtoProduct, update_product, replacement,
  to_proto_product,
}
use golang_gin.Product.Admin.{update_product-IsUpdated}
use golang_gin.Rpc.{CallEnv}
use golang_gin.Rpc.Laws.{IsFailed}
use golang_gin.Product.Server.{serve_create_product, serve_update_product, serve_delete_product}
use golang_gin.Product.Gate.{HasNoAdmin, serve_product-IsFailed}
use golang_gin.Product.{Product}
use golang_gin.Product
use golang_gin.Product.Search.{Texts}
use golang_gin.Product.Cached.{Deps, CacheEnv, get_by_id}
use golang_gin.Product.Fresh.{IsSound}
use golang_gin.Product.Traffic.{Call, reads, creates, updates, reserves, Clears, all_writes, run}
use golang_gin.Product.Ledger
use golang_gin.Product.Reads.{get_by_id-run}

String-discrete : Discrete String
String-discrete s t = elim (Bool-cases (str_eq s t)) [
  | inl e ↦ yes ((eq_iff s t).0 e)
  | inr ne ↦ no (λ h. let is = (eq_iff s t).1 h in ground arith)
]

Product-discrete : Discrete Product
Product-discrete = hlevel (ℕ_discrete, String-discrete)

abbrev pen : Product
pen = record {
  id = 1;
  name = "pen";
  description = "blue";
  category = "paper";
  price = pos 5;
  total_stock = pos 10;
  reserved_stock = pos 0;
  is_active = true;
}

abbrev other : Product
other = record pen { id = 2; name = "ink" }

-- The text of the pen is "pen"; no other product has one.
abbrev text_of : (p : Product) → Dec (p ≡ pen) → Result String
text_of p (yes e) = ok "pen"
text_of p (no ne) = err (foreign "unsupported value")

abbrev pen_json : Json Product
pen_json = record {
  marshal = λ p. text_of p (Product-discrete p pen);
  unmarshal = λ t. if str_eq t "pen" then ok pen else err (foreign "invalid character");
}

-- The empty list has the text "[]"; no other list has one.
abbrev list_text : List Product → Result String
list_text [] = ok "[]"
list_text (p ∷ ps) = err (foreign "unsupported value")

abbrev no_lists : Json (List Product)
no_lists = record {
  marshal = list_text;
  unmarshal = λ t. if str_eq t "[]" then ok [] else err (foreign "invalid character");
}

text_of-pen :
    (p : Product) (d : Dec (p ≡ pen)) (text : String)
    → text_of p d ≡ ok text
    → (text ≡ "pen") × (p ≡ pen)
text_of-pen p (yes e) text h = (ground arith, e)
text_of-pen p (no ne) text h = absurd (ground arith)

abbrev unary : ℕ → String
unary zero = ""
unary (suc n) = str_append "x" (unary n)

nonempty : (t : String) → "" ≢ str_append "x" t
nonempty t h = let n : 0 ≡ 1 + count t = ap count h ∙ length-append "x" t in omega arith

unary-inj : (a b : ℕ) → unary a ≡ unary b → a ≡ b
unary-inj zero zero h = refl
unary-inj zero (suc b) h = absurd (nonempty (unary b) h)
unary-inj (suc a) zero h = absurd (nonempty (unary a) (sym h))
unary-inj (suc a) (suc b) h = ap suc (unary-inj a b (append_cancel_left "x" (unary a) (unary b) h))

abbrev toy_deps : Deps
toy_deps = record {
  product_json = pen_json;
  search_json = no_lists;
  format = unary;
  itoa = λ n. "n";
  texts = record { ilike = str_eq; order = λ query rows. rows };
  product_ttl = 100;
  search_ttl = 10;
}

toy_deps-IsSound : IsSound toy_deps
toy_deps-IsSound = record {
  formats = unary-inj;
  reads = λ p text h.
      let (is, same) = text_of-pen p (Product-discrete p pen) text h in rw (is, same) refl;
}

abbrev env : CacheEnv
env = record { get = none; read = 5; set = none; written = 6 }

abbrev cheaper : Product
cheaper = record pen { price = pos 4 }

-- A read fills the cache, an update and a reservation empty it, and it is filled again.
abbrev calls : List Call
calls =
    creates none 2 (some other)
    ∷ reads env none 1
    ∷ updates none none cheaper
    ∷ reads env none 1
    ∷ updates none none pen
    ∷ reserves none none 1 (pos 3)
    ∷ []

calls-Clears : All Clears calls
calls-Clears = (tt, (tt, (refl, (tt, (refl, (refl, tt))))))

get_by_id-run_example :
    (get_by_id toy_deps env none 1 (run toy_deps calls (record { rows = pen ∷ []; redis = [] }))).1
    ≡ Product.get_by_id none 1 (Ledger.run (all_writes calls) (pen ∷ []))
get_by_id-run_example =
    get_by_id-run toy_deps toy_deps-IsSound calls calls-Clears (pen ∷ []) (refl, tt) env 1 refl

nothing_back : (text : String) → list_text [] ≡ ok text → no_lists.unmarshal text ≡ ok []
nothing_back text h = let is : text ≡ "[]" = ground arith in rw is refl

abbrev some_cache : Redis
some_cache = record { key = "b"; text = "[]"; deadline = 9 } ∷ []

abbrev after_set : Redis
after_set = record { key = "a"; text = "[]"; deadline = 16 } ∷ some_cache

get-set_example :
    (get no_lists none 7 "a" after_set ≡ ok (some []))
    × (get no_lists none 7 "b" after_set ≡ get no_lists none 7 "b" some_cache)
unfolding set
get-set_example =
    get-set no_lists none 6 "a" [] 10 some_cache after_set nothing_back refl 7 "b" refl

abbrev bare : World
bare = record { rows = pen ∷ []; redis = [] }

abbrev nothing_found : Redis
unfolding search_key
nothing_found =
    record {
      key = search_key toy_deps "c" (joined "a" "b") (pos 5) (pos 0);
      text = "[]";
      deadline = 16;
    }
    ∷ []

abbrev found_wrongly : World
unfolding search
found_wrongly = record (search toy_deps env smooth "c" (joined "a" "b") (pos 5) (pos 0) bare).0 {
  rows = record pen { category = "a"; name = "b:c"; description = "" } ∷ [];
}

search-search_example :
    search toy_deps env smooth (joined "b" "c") "a" (pos 5) (pos 0) found_wrongly
    ≡ (found_wrongly, ok [])
unfolding search_key get set Search.search found_wrongly
search-search_example =
    search-search toy_deps "a" "b" "c" (pos 5) (pos 0) env env smooth smooth bare [] nothing_found
      (record pen { category = "a"; name = "b:c"; description = "" } ∷ []) nothing_back refl refl
      refl refl refl

abbrev boss : AccessClaims
boss = record { user_id = "7"; role = "admin" }

abbrev visitor : AccessClaims
visitor = record { user_id = "8"; role = "viewer" }

abbrev parse_one : String → Option ℕ
parse_one t = if str_eq t "x" then some 1 else none

abbrev new_pen : CreateRequest
new_pen = record {
  name = "pen";
  description = "red";
  category = "paper";
  price = pos 6;
  total_stock = pos 1;
}

abbrev red_pen : UpdateRequest
red_pen = record {
  id = "x";
  name = "pen";
  description = "red";
  category = "paper";
  price = pos 6;
  is_active = true;
}

abbrev edit : UpdateEnv
edit = record { exec = none; del = none; cache = env; select = none }

-- A service whose tokens are all those of the visitor.
abbrev call_env : CallEnv
call_env = record {
  allow = λ key limit. ok 1;
  caller = "ip";
  tokens = λ token. ok visitor;
  details_ok = true;
}

visitor-HasNoAdmin : HasNoAdmin call_env.tokens ("Bearer t" ∷ [])
visitor-HasNoAdmin c is = let same : visitor.role ≡ c.role = ground arith in rw (← same) refl

serve_product-IsFailed_example :
    IsFailed bare
      (serve_create_product toy_deps parse_one call_env ("Bearer t" ∷ []) none 3 new_pen bare)
    × IsFailed bare
        (serve_update_product toy_deps parse_one call_env ("Bearer t" ∷ []) edit red_pen bare)
    × IsFailed bare
        (serve_delete_product toy_deps parse_one call_env ("Bearer t" ∷ []) none none "x" bare)
serve_product-IsFailed_example =
    serve_product-IsFailed call_env ("Bearer t" ∷ []) visitor-HasNoAdmin toy_deps parse_one none 3
      new_pen edit red_pen none none "x" bare

abbrev after_edit : World
unfolding update_product
after_edit = (update_product toy_deps parse_one edit (some boss) (some red_pen) bare).0

abbrev edited_pen : ProtoProduct
edited_pen = record {
  id = "x";
  name = "pen";
  description = "red";
  category = "paper";
  price = pos 6;
  total_stock = pos 10;
  reserved_stock = pos 0;
  is_active = true;
}

update_product-IsUpdated_example :
    (c : AccessClaims) × (some boss ≡ some c)
    × (c.role ≡ "admin")
    × (id : ℕ) × (parse_one "x" ≡ some id)
    × (old : Product) × (find_key (λ r. r.id) id bare.rows ≡ some old)
    × (find_key (λ r. r.id) id after_edit.rows
        ≡ some (edited (replacement toy_deps parse_one id red_pen) old))
    × (edited_pen
        ≡ to_proto_product toy_deps parse_one
            (edited (replacement toy_deps parse_one id red_pen) old))
unfolding update_product
update_product-IsUpdated_example =
    update_product-IsUpdated toy_deps parse_one edit (some boss) red_pen bare after_edit edited_pen
      refl refl
