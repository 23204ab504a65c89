-- ===== src/Vmess/AlterIds/Update.antt =====
-- What an update of the table of the legacy ids forgets (service.go: generateLegacyKeys, loopGenerateLegacyKeys).
use sing_vmess.Base.{ℕ, List, map, Bytes}

abbrev stamped : {U : Type 0} → ℕ → List (U × List Bytes) → List (U × ℕ)
stamped now users = map (λ u. (u.0, now)) users
