-- ===== src/Product/Search.antt =====
-- `Search` of services/product-service/internal/repository/product.go. What PostgreSQL does with
-- texts is a parameter: whether a text is ILIKE the pattern of a query, and the order of the rows,
-- by time or by similarity.
use text.Mathlib.Text.{◌==◌ as str_eq}
use Prim.Native.String.{◌++◌ as str_append}
use golang_gin.Prelude.{ℕ, zero, suc, String, Bool, ◌&&◌, ◌||◌, List, [], ◌∷◌, if◌then◌else◌}
use golang_gin.Prelude.Int.{ℤ, pos, negsuc, leb_ℤ}
use golang_gin.Errors.{internal, caused, foreign, Result, ok, err}
use golang_gin.Db.{select_where, RowsFault, smooth, query_failed, scan_failed, iteration_failed}
use golang_gin.Product.{Product, Table}

-- The parameters of the query: the pattern and the order of the answer.
pub record Texts : Type 0 where
  pub ilike : String → String → Bool
  pub order : String → List Product → List Product

abbrev pub take : ℕ → List Product → List Product
take zero rows = []
take (suc n) [] = []
take (suc n) (r ∷ rows) = r ∷ take n rows

abbrev pub drop : ℕ → List Product → List Product
drop zero rows = rows
drop (suc n) [] = []
drop (suc n) (r ∷ rows) = drop n rows

-- The `WHERE` of the query.
abbrev pub matches : Texts → String → String → Product → Bool
matches texts query category r =
    r.is_active
    && ((str_eq category "" || str_eq r.category category)
        && (str_eq query ""
            || texts.ilike (str_append r.name (str_append " " r.description)) query))

-- `LIMIT` and `OFFSET`; PostgreSQL refuses a negative offset.
abbrev pub page : ℤ → ℤ → List Product → Result (List Product)
page limit (negsuc n) rows =
    err (caused internal "failed to search products" (foreign "OFFSET must not be negative"))
page (pos limit) (pos offset) rows = ok (take limit (drop offset rows))
page (negsuc n) (pos offset) rows = ok []

-- The limit that is used, 20 in place of one that is not positive.
abbrev pub limit_or_default : ℤ → ℤ
limit_or_default limit = if leb_ℤ limit (pos 0) then pos 20 else limit

unfoldable pub search : Texts → RowsFault → String → String → ℤ → ℤ → Table → Result (List Product)
search texts (query_failed e) query category limit offset rows =
    err (caused internal "failed to search products" e)
search texts (scan_failed e) query category limit offset rows =
    err (caused internal "failed to scan product row" e)
search texts (iteration_failed e) query category limit offset rows =
    err (caused internal "error iterating product rows" e)
search texts smooth query category limit offset rows =
    page (limit_or_default limit) offset
      (texts.order query (select_where (matches texts query category) rows))
