-- ===== src/Listener/Config.antt =====
-- Reading the configuration, `poc_config` (workers/shared/db.ts), and the two things that the client of
-- the bridge (workers/native/status-client.ts, workers/shared/client-tokens.ts) finds there.
use scim_bridge.Base.{String, Option, none, some, List, [], ◌∷◌, string_eq, lookup}
use scim_bridge.Base.Text.{concat, strip_slashes}
use scim_bridge.Listener.{Rows, Outside}
use scim_bridge.Listener.Reading.{◌<|>◌, nonempty}

-- `getConfig`
unfoldable pub get_config : String → List (String × String) → Option String
get_config key rows = elim (lookup (λ row. row.0) key rows) [ none ↦ none | some row ↦ some row.1 ]

-- `proxy.loopback_url`, or else `proxy.public_url`, without slashes at its end
abbrev pub base_url : Rows → Option String
base_url rows =
    nonempty
      (elim (get_config "proxy.loopback_url" rows.config
        <|> get_config "proxy.public_url" rows.config) [
          | none ↦ none
          | some url ↦ some (strip_slashes url)
        ])

-- `clientTokenKey`
abbrev pub client_token_key : String → String
client_token_key directory_id = concat ("idp.proxy_token." ∷ directory_id ∷ [])

-- `clientTokenFor` of workers/shared/client-tokens.ts
abbrev pub client_token_for : {W : Type 0} → Outside W → Rows → String → Option String
client_token_for o rows directory_id =
    o.remembered directory_id <|> get_config (client_token_key directory_id) rows.config
