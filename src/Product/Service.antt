-- ===== src/Product/Service.antt =====
-- services/product-service/internal/service: the calls of the product service, over the cached
-- repository. A request is nil or its fields; the claims are those of the context, if it has any.
use text.Mathlib.Text.{◌==◌ as str_eq}
use golang_gin.Prelude.{ℕ, String, Bool, Option, none, some, List, [], ◌∷◌, map}
use golang_gin.Prelude.Int.{ℤ, pos}
use golang_gin.Errors.{
  unauthenticated, permission_denied, invalid_input, new, Result, ok, err, ◌>>=◌, ◌>>◌, guard,
  Fault,
}
use golang_gin.Auth.{AccessClaims}
use golang_gin.Db.{RowsFault}
use golang_gin.Product.{Product}
use golang_gin.Product.Cached.{Deps, World, CacheEnv, get_by_id, get_by_ids, create, update, search}
use golang_gin.Product.Cached

-- `pb.Product`, without its times.
pub record ProtoProduct : Type 0 where
  pub id : String
  pub name : String
  pub description : String
  pub category : String
  pub price : ℤ
  pub total_stock : ℤ
  pub reserved_stock : ℤ
  pub is_active : Bool

pub record CreateRequest : Type 0 where
  pub name : String
  pub description : String
  pub category : String
  pub price : ℤ
  pub total_stock : ℤ

pub record UpdateRequest : Type 0 where
  pub id : String
  pub name : String
  pub description : String
  pub category : String
  pub price : ℤ
  pub is_active : Bool

pub record SearchRequest : Type 0 where
  pub query : String
  pub category : String
  pub limit : ℤ
  pub offset : ℤ

-- The surroundings of an update: its statement, the invalidation, and the read after it.
pub record UpdateEnv : Type 0 where
  pub exec : Fault
  pub del : Fault
  pub cache : CacheEnv
  pub select : Fault

-- `requireAdmin`
unfoldable pub require_admin : Option AccessClaims → Result (Unit {0})
require_admin none = err (new unauthenticated "authentication required")
require_admin (some c) =
    guard (str_eq c.role "admin") permission_denied "only admins can perform this action"

-- `if req == nil`
abbrev pub not_nil {ℓ} : {A : Type ℓ} → Option A → String → Result A
not_nil none text = err (new invalid_input text)
not_nil (some r) text = ok r

-- The rest of a call, after checks that change nothing.
abbrev pub then_run {ℓ κ} :
    {A : Type ℓ} {B : Type κ} → World → Result A → (A → World × Result B) → World × Result B
then_run w (err e) next = (w, err e)
then_run w (ok a) next = next a

abbrev pub map_ok {ℓ κ} : {A : Type ℓ} {B : Type κ} → (A → B) → Result A → Result B
map_ok f (err e) = err e
map_ok f (ok a) = ok (f a)

-- A call whose answer is made of a result.
abbrev pub answer {ℓ κ} : {A : Type ℓ} {B : Type κ} → (A → B) → World × Result A → World × Result B
answer f (w, r) = (w, map_ok f r)

module _ (deps : Deps) (parse : String → Option ℕ) where
  -- `parseProductID`
  unfoldable pub parse_product_id : String → Result ℕ
  parse_product_id text = not_nil (parse text) "invalid product id"

  -- `toProtoProduct`
  unfoldable pub to_proto_product : Product → ProtoProduct
  to_proto_product p = record {
    id = deps.format p.id;
    name = p.name;
    description = p.description;
    category = p.category;
    price = p.price;
    total_stock = p.total_stock;
    reserved_stock = p.reserved_stock;
    is_active = p.is_active;
  }

  -- The product of a request to create one; the id and the flag are the zero values.
  abbrev pub requested : CreateRequest → Product
  requested r = record {
    id = 0;
    name = r.name;
    description = r.description;
    category = r.category;
    price = r.price;
    total_stock = r.total_stock;
    reserved_stock = pos 0;
    is_active = Bool.false;
  }

  unfoldable pub create_product :
      Fault → ℕ → Option AccessClaims → Option CreateRequest → World → World × Result ProtoProduct
  unfolding require_admin create to_proto_product
  create_product insert fresh claims request w =
      then_run w
        (do r ← not_nil request "create product request is nil"; require_admin claims; ok r)
        (λ r. answer to_proto_product (create deps insert fresh (some (requested r)) w))

  -- The product of an update, whose stock is the zero value.
  abbrev pub replacement : ℕ → UpdateRequest → Product
  replacement id r = record {
    id = id;
    name = r.name;
    description = r.description;
    category = r.category;
    price = r.price;
    total_stock = pos 0;
    reserved_stock = pos 0;
    is_active = r.is_active;
  }

  -- `UpdateProduct` after the update: the product is read again.
  unfoldable pub reread : UpdateEnv → ℕ → World × Result (Unit {0}) → World × Result ProtoProduct
  unfolding get_by_id to_proto_product
  reread env id (w, err e) = (w, err e)
  reread env id (w, ok _) = answer to_proto_product (get_by_id deps env.cache env.select id w)

  -- The checks of `UpdateProduct` and `DeleteProduct`, with the request and the id in it.
  abbrev pub checked {ℓ} :
      {A : Type ℓ} → String → (A → String) → Option AccessClaims → Option A → Result (A × ℕ)
  checked text id_of claims request = do
    r ← not_nil request text
    require_admin claims
    id ← parse_product_id (id_of r)
    ok (r, id)

  unfoldable pub update_product :
      UpdateEnv → Option AccessClaims → Option UpdateRequest → World → World × Result ProtoProduct
  unfolding require_admin parse_product_id update reread
  update_product env claims request w =
      then_run w (checked "update product request is nil" (λ r. r.id) claims request)
        (λ (r, id). reread env id (update deps env.exec env.del (replacement id r) w))

  -- `DeleteProduct`; the request is its id.
  unfoldable pub delete_product :
      Fault → Fault → Option AccessClaims → Option String → World → World × Result Bool
  unfolding require_admin parse_product_id Cached.delete_product
  delete_product exec del claims request w =
      then_run w (checked "delete product request is nil" (λ text. text) claims request)
        (λ (text, id). answer (λ _. Bool.true) (Cached.delete_product deps exec del id w))

  unfoldable pub get_product :
      CacheEnv → Fault → Option String → World → World × Result ProtoProduct
  unfolding parse_product_id get_by_id to_proto_product
  get_product env select request w =
      then_run w (do text ← not_nil request "get product request is nil"; parse_product_id text)
        (λ id. answer to_proto_product (get_by_id deps env select id w))

  -- The ids of a request, up to the first that is none.
  unfoldable pub parse_all : List String → Result (List ℕ)
  unfolding parse_product_id
  parse_all [] = ok []
  parse_all (text ∷ texts) = do id ← parse_product_id text; ids ← parse_all texts; ok (id ∷ ids)

  unfoldable pub get_products_by_ids :
      (ℕ → CacheEnv) → RowsFault → Option (List String) → World → World × Result (List ProtoProduct)
  unfolding parse_all get_by_ids to_proto_product
  get_products_by_ids env fault request w =
      then_run w (do texts ← not_nil request "get products by ids request is nil"; parse_all texts)
        (λ ids. answer (map to_proto_product) (get_by_ids deps env fault ids w))

  unfoldable pub search_products :
      CacheEnv → RowsFault → Option SearchRequest → World → World × Result (List ProtoProduct)
  unfolding search to_proto_product
  search_products env fault request w =
      then_run w (not_nil request "search products request is nil") (λ r.
        answer (map to_proto_product) (search deps env fault r.query r.category r.limit r.offset w))

  -- `ReserveStock`, `ReleaseStock` and `ConfirmStock`; a request is its id and quantity.
  abbrev pub with_id : String → Option (String × ℤ) → Result (ℕ × ℤ)
  with_id text request = do r ← not_nil request text; id ← parse_product_id r.0; ok (id, r.1)

  unfoldable pub reserve_stock :
      Fault → Fault → Option (String × ℤ) → World → World × Result (Unit {0})
  unfolding parse_product_id Cached.reserve_stock
  reserve_stock exec del request w =
      then_run w (with_id "reserve stock request is nil" request)
        (λ (id, q). Cached.reserve_stock deps exec del id q w)

  unfoldable pub release_stock :
      Fault → Fault → Option (String × ℤ) → World → World × Result (Unit {0})
  unfolding parse_product_id Cached.release_stock
  release_stock exec del request w =
      then_run w (with_id "release stock request is nil" request)
        (λ (id, q). Cached.release_stock deps exec del id q w)

  unfoldable pub confirm_stock :
      Fault → Fault → Option (String × ℤ) → World → World × Result (Unit {0})
  unfolding parse_product_id Cached.confirm_stock
  confirm_stock exec del request w =
      then_run w (with_id "confirm stock request is nil" request)
        (λ (id, q). Cached.confirm_stock deps exec del id q w)
