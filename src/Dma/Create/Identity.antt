-- ===== src/Dma/Create/Identity.antt =====
-- The table of huge pages where no function for the bus is registered.
use target_syslibs.Base.{ℕ, zero, suc, ◌≡◌, refl, ◌∙◌, none, List, [], ◌∷◌, arith}
use target_syslibs.Base.Outcome.{done}
use target_syslibs.Base.Words.{add64}
use target_syslibs.Dma.Align.{huge_page_size}
use target_syslibs.Dma.Pool.{HugePage}
use target_syslibs.Dma.Address.{bf_mem_virt2dma}
use target_syslibs.Dma.Machine.{Machine, System, ◌>>=◌, pure}
use target_syslibs.Dma.Machine.Laws.{>>=-step}
use target_syslibs.Dma.Create.{log_pages, map_on_bus}

-- Without a registered function the bus address is the physical address.
unfoldable pub identity_pages : System → ℕ → ℕ → List HugePage
identity_pages s zero ptr = []
identity_pages s (suc n) ptr =
    record { base_dma_addr = bf_mem_virt2dma s.pagemap ptr; base_virt_addr = ptr }
    ∷ identity_pages s n (add64 ptr huge_page_size)

pub log_pages-identity :
    (s : System) (dev_id subdev_id n ptr : ℕ) (m : Machine)
    → s.map_fn ≡ none
    → log_pages s dev_id subdev_id n ptr m ≡ done (identity_pages s n ptr, m)
unfolding log_pages identity_pages
log_pages-identity s dev_id subdev_id zero ptr m e = refl
log_pages-identity s dev_id subdev_id (suc n) ptr m e =
    >>=-step (map_on_bus s dev_id subdev_id (bf_mem_virt2dma s.pagemap ptr))
      (λ dma. log_pages s dev_id subdev_id n next >>= λ rest.
        pure (record { base_dma_addr = dma; base_virt_addr = ptr } ∷ rest))
      m m (bf_mem_virt2dma s.pagemap ptr) (ground arith)
    ∙ >>=-step (log_pages s dev_id subdev_id n next)
        (λ rest.
          pure
            (record { base_dma_addr = bf_mem_virt2dma s.pagemap ptr; base_virt_addr = ptr } ∷ rest))
        m m (identity_pages s n next) (log_pages-identity s dev_id subdev_id n next m e)
  where
    next : ℕ
    next = add64 ptr huge_page_size
