-- ===== src/ExpApi.antt =====
-- store/expapi/expapi.go: the handlers that list, read and delete what a backend holds. The texts of
-- errors are left out of the replies.
use httpcache.Base.{ℕ, ◌≡◌, ◌≢◌, ◌⊎◌, inl, inr, refl, ◌∙◌, false, List, Option, none, some, arith}
use httpcache.Bytes.{Bytes, str_eq, str_eq_refl}
use httpcache.Store.{Conn, IsConn, Got, found, not_exist, failed, Done, done, missing, broken}

-- The body of a reply: nothing, an error's text, the bytes of a value, or the keys as JSON.
pub data Body : Type 0 where
  nothing error_text : Body
  octets : Bytes → Body
  keys_json : List Bytes → Body

pub record Reply : Type 0 where
  pub status : ℕ
  pub body : Body

abbrev error_reply : ℕ → Reply
error_reply status = record { status = status; body = error_text }

-- KeyLister: the method Keys, `none` for an error
abbrev pub KeyLister : Type 0 → Type 0
KeyLister S = Bytes → S → Option (List Bytes)

abbrev listed : Option (List Bytes) → Reply
listed none = error_reply 500
listed (some keys) = record { status = 200; body = keys_json keys }

abbrev reply_of_got : Got → Reply
reply_of_got (found value) = record { status = 200; body = octets value }
reply_of_got not_exist = error_reply 404
reply_of_got failed = error_reply 500

abbrev reply_of_done : Done → Reply
reply_of_done done = record { status = 204; body = nothing }
reply_of_done missing = error_reply 404
reply_of_done broken = error_reply 500

got_cases : (g : Got) → g ≢ failed → ((v : Bytes) × (g ≡ found v)) ⊎ (g ≡ not_exist)
got_cases (found v) ok = inl (v, refl)
got_cases not_exist ok = inr refl
got_cases failed ok = absurd (ok refl)

module _ {S : Type 0} where
  -- list; `none` is a backend that is no KeyLister
  unfoldable pub list : Option (KeyLister S) → Bytes → S → Reply
  list none prefix s = error_reply 501
  list (some keys) prefix s = listed (keys prefix s)

  -- retrieve
  unfoldable pub retrieve : Conn S → Bytes → S → Reply
  retrieve conn key s = reply_of_got (conn.get key s)

  -- destroy
  unfoldable pub destroy : Conn S → Bytes → S → Reply × S
  destroy conn key s = let (error, s') = conn.delete key s in (reply_of_done error, s')

  -- connHandler, where `none` is an error of OpenConn
  unfoldable pub conn_handler : Option (Conn S) → (Conn S → S → Reply × S) → S → Reply × S
  conn_handler none handler s = (error_reply 500, s)
  conn_handler (some conn) handler s = handler conn s

  first_reply :
      (conn : Conn S) (key : Bytes) (s : S)
      → IsConn conn
      → conn.get key s ≢ failed
      → let reply = (destroy conn key s).0 in
        (((retrieve conn key s).status ≡ 200) × (reply.status ≡ 204) × (reply.body ≡ nothing))
        ⊎ (((retrieve conn key s).status ≡ 404) × (reply.status ≡ 404) × (reply.body ≡ error_text))
  unfolding destroy retrieve
  first_reply conn key s laws ok = elim (got_cases (conn.get key s) ok) [
    | inl (v, there) ↦ inl (rw (there, laws.delete_present key v s there) (refl, refl, refl))
    | inr gone ↦ inr (rw (gone, laws.delete_absent key s gone) (refl, refl, refl))
  ]

  -- A deletion answers 204 exactly where the key was read with 200, and 404 where it was not found.
  -- Afterwards the key is not found, a second deletion answers 404, and what is read under any other
  -- key is what was read before. The backend keeps the laws of the interface, and reading the key
  -- did not fail.
  pub retrieve-destroy :
      (conn : Conn S) (key j : Bytes) (s : S)
      → IsConn conn
      → conn.get key s ≢ failed
      → let (reply, s') = conn_handler (some conn) (λ c. destroy c key) s in
        ((((retrieve conn key s).status ≡ 200) × (reply.status ≡ 204) × (reply.body ≡ nothing))
          ⊎ (((retrieve conn key s).status ≡ 404)
              × (reply.status ≡ 404)
              × (reply.body ≡ error_text)))
        × ((retrieve conn key s').status ≡ 404)
        × ((destroy conn key s').0.status ≡ 404)
        × (str_eq key j ≡ false → retrieve conn j s' ≡ retrieve conn j s)
  unfolding destroy retrieve conn_handler
  retrieve-destroy conn key j s laws ok =
      let gone : conn.get key (conn.delete key s).1 ≡ not_exist =
        laws.get_delete key key s ∙ rw (str_eq_refl key) refl in
      (
        first_reply conn key s laws ok,
        rw gone refl,
        rw (laws.delete_absent key (conn.delete key s).1 gone) refl,
        ground (arith, laws.get_delete key j s),
      )
