-- ===== src/Cni/Detach/Removed.antt =====
-- Remove of internal/adapters/cni/adapter.go: only a network that nothing is attached to loses its file.
use dockerdless.Base.{
  ◌≡◌, ◌≢◌, Option, some, List, Text, text_eq, lookup, delete, Listed, Result, ok, err,
}
use dockerdless.Domain.Model.{NetworkId}
use dockerdless.Domain.Registry.{ContextError}
use dockerdless.Cni.Modes.{NetworkError, network}
use dockerdless.Cni.Config.{Network}
use dockerdless.Cni.Networks.{Host, resolve}
use dockerdless.Cni.Attach.{Adapter, AttachmentKey, AttachmentState, attachment_key_eq, Plugins}

module _ {W C : Type 0} (h : Host) (plugins : Plugins W C) where
  -- What a successful Remove has found and done.
  pub record Removes (a : Adapter W) (n : Network) (b : Adapter W) : Type 0 where
    pub named : n.mode ≡ network
    pub untracked :
        (key : AttachmentKey) (s : AttachmentState)
        → lookup key a.attachments ≡ some s
        → key.network ≢ n.name
    pub uncached :
        (xs : List (Option Text))
        → plugins.cached_attachments a.world ≡ ok xs
        → ¬ (Listed (some n.name) xs)
    pub files : b.files ≡ delete n.file a.files
    pub alloc : b.alloc ≡ a.alloc
    pub attachments : b.attachments ≡ a.attachments

  module _ (ctx : Option ContextError) (a : Adapter W) (id : NetworkId) where
    -- How a Remove ends.
    abbrev pub RemoveEnds : Result NetworkError (Unit {0}) × Adapter W → Type 0
    RemoveEnds (ok u, b) = (n : Network) × (resolve h ctx a.files id ≡ ok n) × Removes a n b
    RemoveEnds (err e, b) = b.files ≡ a.files
