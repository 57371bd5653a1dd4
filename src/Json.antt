-- ===== src/Json.antt =====
-- The values that `json.loads` returns and `json.dumps` takes, as far as the program has them, and
-- what carries them from one process to another.
use tournament_platform_sdd.Base.{
  ℕ, ℤ, pos, Bool, true, String, Option, some, ◌≡◌, str_eq, if◌then◌else◌,
}
use tournament_platform_sdd.Exec.{Result, ok, err, key_error, type_error}

mutual
  pub data Json : Type 0 where
    null : Json
    boolean : Bool → Json
    num : ℤ → Json
    text : String → Json
    arr : Items → Json
    obj : Fields → Json

  pub data Items : Type 0 where
    nil : Items
    cons : Json → Items → Items

  pub data Fields : Type 0 where
    end : Fields
    field : String → Json → Fields → Fields

unfoldable pub lookup : String → Fields → Result Json
lookup k end = err key_error
lookup k (field j v fs) = if str_eq k j then ok v else lookup k fs

-- `payload[k]`: only a dict can be subscripted by a text.
unfoldable pub subscript : Json → String → Result Json
unfolding lookup
subscript (obj fs) k = lookup k fs
subscript j k = err type_error

-- What lies between a payload and the tables, none of it in the repository: `json.dumps` and
-- `json.loads`, where `none` is a `JSONDecodeError`; Django's conversion of a value to the id that
-- it looks up, where `none` is an exception; and the database's test of equality of JSON values.
pub record Wire : Type 1 where
  pub Bytes : Type 0
  pub dumps : Json → Bytes
  pub loads : Bytes → Option Json
  pub id_of : Json → Option ℕ
  pub same_json : Json → Json → Bool
  pub loads-dumps : (j : Json) → loads (dumps j) ≡ some j
  pub id_of-num : (k : ℕ) → id_of (num (pos k)) ≡ some k
  pub same_json-refl : (j : Json) → same_json j j ≡ true
