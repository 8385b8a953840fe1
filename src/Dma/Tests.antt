-- ===== src/Dma/Tests.antt =====
-- A machine, a pool and the parts of a result, for the tests in the children.
mod Pools
mod Megabytes
mod Calls
use target_syslibs.Base.{ℕ, Option, some, []}
use target_syslibs.Base.Outcome.{Outcome, done}
use target_syslibs.Dma.Pool.{Pool}
use target_syslibs.Dma.Machine.{Machine}

abbrev pub empty : Machine
empty = record { heap = []; regions = []; word = λ _. 0; bus = [] }

-- What a call gave, with a default for a call that gave no pool.
abbrev pub pool_of : Outcome (Option Pool × Machine) → Pool → Pool
pool_of (done (some p, m)) q = p
pool_of _ q = q

abbrev pub machine_of : Outcome (Option Pool × Machine) → Machine → Machine
machine_of (done (r, m)) n = m
machine_of _ n = n

abbrev pub blank : Pool
blank = record {
  self = 0;
  pool_inited = 0;
  pool_id = 0;
  hdr_size = 0;
  pool_ptr = 0;
  buf_start = 0;
  buf_cnt = 0;
  buf_size = 0;
  alignment = 0;
  queue_block = 0;
  pool_buf_ptr = [];
  pool_buf_offset = 0;
  base_phy_addr = 0;
  pool_gate = 0;
  name = [];
  info_block = 0;
  huge_page_info = [];
  num_huge_pages = 0;
  pool_hdr_offset = 0;
  fd = 0;
  dev_id = 0;
  subdev_id = 0;
}
