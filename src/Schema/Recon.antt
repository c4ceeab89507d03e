-- ===== src/Schema/Recon.antt =====
-- packages/db/migrations/versions/c240c2157e8a_add_recon_fields_to_asset.py.
use security_tool.Prelude.{false, List, [], ◌∷◌, codes}
use security_tool.Schema.{Op, add_column, drop_column, column, with_default, string, jsonb}

unfoldable pub upgrade : List Op
upgrade =
    add_column (codes "assets")
      (with_default (codes "[]") (column (codes "ip_addresses") jsonb false))
    ∷ add_column (codes "assets")
        (with_default (codes "[]") (column (codes "http_probes") jsonb false))
    ∷ add_column (codes "assets")
        (with_default (codes "root_domain") (column (codes "discovery_source") (string 30) false))
    ∷ []

unfoldable pub downgrade : List Op
downgrade =
    drop_column (codes "assets") (codes "discovery_source")
    ∷ drop_column (codes "assets") (codes "http_probes")
    ∷ drop_column (codes "assets") (codes "ip_addresses")
    ∷ []
