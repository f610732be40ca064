-- ===== src/Demo/Users.antt =====
-- examples/demo-api/internal/repo/user.go: the table of users, behind its queries.
use gframework.Base.{ℕ, String, Option, List, ℤ}
use gframework.Errors.{GoError, Result}

-- An instant is a number.
pub record User : Type 0 where
  pub id : String
  pub name : String
  pub email : String
  pub created_at : ℕ
  pub updated_at : ℕ

-- The file's statements, with their arguments; `insert` and `update` return the row.
pub data Query : Type 0 where
  insert : User → Query
  by_id : String → Query
  by_email : String → Query
  page : (limit offset : ℤ) → Query
  count : Query
  update : (name email : String) (updated_at : ℕ) (id : String) → Query
  delete : String → Query

-- The pool under scany's `Get` and `Select`, the clock and uuid.NewString, on a state `W`.
pub record Pool (W : Type 0) : Type 0 where
  pub get : Query → W → Result User × W
  pub select : Query → W → Result (List User) × W
  pub query_row : Query → W → Result ℤ × W
  pub exec : Query → W → Option GoError × W
  pub now : W → ℕ × W
  pub new_uuid : W → String × W

module _ {W : Type 0} (pool : Pool W) where
  unfoldable pub create_user : (name email : String) → W → Result User × W
  create_user name email w =
      let (id, w1) = pool.new_uuid w in
      let (created, w2) = pool.now w1 in
      let (updated, w3) = pool.now w2 in
      pool.get
        (insert (record {
          id = id;
          name = name;
          email = email;
          created_at = created;
          updated_at = updated;
        }))
        w3

  unfoldable pub get_user_by_id : (id : String) → W → Result User × W
  get_user_by_id id w = pool.get (by_id id) w

  unfoldable pub get_user_by_email : (email : String) → W → Result User × W
  get_user_by_email email w = pool.get (by_email email) w

  unfoldable pub list_users : (limit offset : ℤ) → W → Result (List User) × W
  list_users limit offset w = pool.select (page limit offset) w

  unfoldable pub count_users : W → Result ℤ × W
  count_users w = pool.query_row count w

  unfoldable pub update_user : (id name email : String) → W → Result User × W
  update_user id name email w =
      let (updated, w1) = pool.now w in pool.get (update name email updated id) w1

  unfoldable pub delete_user : (id : String) → W → Option GoError × W
  delete_user id w = pool.exec (delete id) w
