-- ===== src/Agent/Interrupts/Shapes.antt =====
-- The two shapes of an interrupt.
use rakit.Prelude.{◌≡◌, refl, List, [], ◌∷◌, arith}
use rakit.Metadata
use rakit.Agent.Interrupts.{interrupts_to_metadata, metadata_to_interrupts}

-- Persisted interrupts that are read into memory and persisted again are the same.
pub interrupts_to_metadata-metadata_to_interrupts :
    (is : List Metadata.Interrupt) → interrupts_to_metadata (metadata_to_interrupts is) ≡ is
unfolding interrupts_to_metadata metadata_to_interrupts
interrupts_to_metadata-metadata_to_interrupts [] = refl
interrupts_to_metadata-metadata_to_interrupts (i ∷ is) =
    ground (arith, interrupts_to_metadata-metadata_to_interrupts is)
