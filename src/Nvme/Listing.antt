-- ===== src/Nvme/Listing.antt =====
-- src/c/sysdev/nvme/nvme.c: listing the namespaces of a command set.
use kdrivers.Base.{ℕ, ◌+◌, ◌*◌, ◌≡◌, ◌≢◌, List, [], ◌∷◌, done}
use kdrivers.Base.Memory.{load32}
use kdrivers.Base.Masks.{Masks}
use kdrivers.Nvme.Transport.{Transport}
use kdrivers.Nvme.Controller.{NamespaceArgs}

-- From entry `i` on the page holds the numbers `ids`, none of them 0, and then a 0.
unfoldable pub HoldsIds : List ℕ → ℕ → List ℕ → Type 0
HoldsIds page i [] = load32 page (4 * i) ≡ done 0
HoldsIds page i (id ∷ ids) = (load32 page (4 * i) ≡ done id) × (id ≢ 0) × HoldsIds page (i + 1) ids

-- The namespaces `ids` of a command set, before those that were found already, the last first.
unfoldable pub listed : ℕ → List ℕ → List NamespaceArgs → List NamespaceArgs
listed set [] found = found
listed set (id ∷ ids) found = listed set ids (record { namespace = id; command_set = set } ∷ found)
