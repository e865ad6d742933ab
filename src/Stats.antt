-- ===== src/Stats.antt =====
-- pkg/stats/stats.go: the counters of the process. Each function is one atomic addition to an int64
-- (IncActiveConns: two). The start time and the uptime are not modelled.
use qtrp.Common.{if◌then◌else◌}
use qtrp.Go.Int64.{ℤ, pos, negsuc, add64, ltb_ℤ}

pub record Stats : Type 0 where
  pub active_clients : ℤ
  pub active_proxies : ℤ
  pub active_conns : ℤ
  pub total_conns : ℤ
  pub bytes_in : ℤ
  pub bytes_out : ℤ

-- globalStats as it starts.
abbrev pub no_stats : Stats
no_stats = record {
  active_clients = pos 0;
  active_proxies = pos 0;
  active_conns = pos 0;
  total_conns = pos 0;
  bytes_in = pos 0;
  bytes_out = pos 0;
}

abbrev pub add_bytes_in : ℤ → Stats → Stats
add_bytes_in n s = record s { bytes_in = add64 s.bytes_in n }

abbrev pub add_bytes_out : ℤ → Stats → Stats
add_bytes_out n s = record s { bytes_out = add64 s.bytes_out n }

abbrev pub inc_active_clients : Stats → Stats
inc_active_clients s = record s { active_clients = add64 s.active_clients (pos 1) }

abbrev pub dec_active_clients : Stats → Stats
dec_active_clients s = record s { active_clients = add64 s.active_clients (negsuc 0) }

abbrev pub inc_active_proxies : Stats → Stats
inc_active_proxies s = record s { active_proxies = add64 s.active_proxies (pos 1) }

abbrev pub dec_active_proxies : Stats → Stats
dec_active_proxies s = record s { active_proxies = add64 s.active_proxies (negsuc 0) }

abbrev pub inc_active_conns : Stats → Stats
inc_active_conns s = record s {
  active_conns = add64 s.active_conns (pos 1);
  total_conns = add64 s.total_conns (pos 1);
}

abbrev pub dec_active_conns : Stats → Stats
dec_active_conns s = record s { active_conns = add64 s.active_conns (negsuc 0) }

-- CountingReader.Read and CountingWriter.Write, behind the call below that answered `n`: the counter
-- moves only if bytes did.
unfoldable pub counted_read : ℤ → Stats → Stats
counted_read n s = if ltb_ℤ (pos 0) n then add_bytes_in n s else s

unfoldable pub counted_write : ℤ → Stats → Stats
counted_write n s = if ltb_ℤ (pos 0) n then add_bytes_out n s else s

-- Get: each counter is loaded on its own.
abbrev pub get_stats : Stats → Stats
get_stats s = record {
  active_clients = s.active_clients;
  active_proxies = s.active_proxies;
  active_conns = s.active_conns;
  total_conns = s.total_conns;
  bytes_in = s.bytes_in;
  bytes_out = s.bytes_out;
}
