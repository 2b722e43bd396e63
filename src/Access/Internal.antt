-- ===== src/Access/Internal.antt =====
-- src/services/auth_gateway.rs: what the workers ask the Auth Gateway, without a user's session. `get` is
-- the reply to a request with the internal key, to a URL with a query; the two readings are serde's.
use birthday_role.Prelude.{ℕ, not, Option, List, [], ◌∷◌, ◌++◌, if◌then◌else◌, Text, codes}
use birthday_role.Prelude.Results.{Result, ok, err, ◌>>=◌}
use birthday_role.Errors.{AppError, internal}
use birthday_role.Client.{Reply, replied, unreachable, is_success}

abbrev pub plugin_slug : Text
plugin_slug = codes "birthday-role"

module _ (base key : Text) (get : Text → Text → List (Text × Text) → Reply) (show_status : ℕ → Text)
    (read_guild_ids : Text → Result Text (List Text))
    (read_member_ids : Text → Result Text (List Text × Option Text)) where
  abbrev pub parsed_of {ℓ} : {A : Type ℓ} → Result Text A → Result AppError A
  parsed_of (ok a) = ok a
  parsed_of (err e) = err (internal (codes "auth_gateway response not JSON: " ++ e))

  -- What the reply to the request `what` comes to.
  unfoldable pub internal_reply {ℓ} :
      {A : Type ℓ} → Text → (Text → Result Text A) → Reply → Result AppError A
  internal_reply what read (unreachable e) =
      err (internal (codes "auth_gateway request failed: " ++ e))
  internal_reply what read (replied status body) =
      if not (is_success status)
      then err (
          internal (
            codes "auth_gateway "
            ++ what
            ++ codes " returned "
            ++ show_status status
            ++ codes ": "
            ++ elim body [ ok t ↦ t | err e ↦ [] ]))
      else parsed_of (body >>= read)

  unfoldable pub fetch_user_guild_ids : Text → Result AppError (List Text)
  fetch_user_guild_ids discord_id = internal_reply (codes "user_guild_ids") read_guild_ids (
      get (base ++ codes "/auth/internal/user_guild_ids") key
        ((codes "discord_id", discord_id) ∷ (codes "plugin", plugin_slug) ∷ []))

  -- The request for the members of a guild.
  abbrev pub member_reply : Text → Reply
  member_reply guild_id =
      get (base ++ codes "/auth/internal/guild_member_ids") key
        ((codes "guild_id", guild_id) ∷ (codes "plugin", plugin_slug) ∷ [])

  unfoldable pub fetch_guild_member_ids_full : Text → Result AppError (List Text × Option Text)
  fetch_guild_member_ids_full guild_id =
      internal_reply (codes "guild_member_ids") read_member_ids (member_reply guild_id)

  unfoldable pub fetch_guild_member_ids : Text → Result AppError (List Text)
  fetch_guild_member_ids guild_id = do
    (discord_ids, guild_name) ← fetch_guild_member_ids_full guild_id
    ok discord_ids
