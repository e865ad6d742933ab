-- ===== src/Config/Proxy.antt =====
-- pkg/config/config.go: ProxyConfig, ExpandedProxy, Expand and GetLocalAddress.
pub mod Expanded
pub mod Unique
use qtrp.Common.{
  ℕ, suc, ◌+◌, ◌<◌, ◌≡◌, refl, Bool, true, false, not, List, [], ◌∷◌, ◌++◌, Option, none, some,
  Result, ok, err, ◌>>=◌, ◌>>◌, refuse_if, or_fail, wrap_error, ltb, if◌then◌else◌, length,
}
use qtrp.Go.Int64.{ℤ, pos, eqb_ℤ}
use qtrp.Go.Strconv.{format_int, format_nat}
use qtrp.Go.Strings.{Text, codes}
use qtrp.Config.Port.{PortError, PortRange, parse_port_range, count, ports}

pub record ProxyConfig : Type 0 where
  pub name : Text
  pub proxy_type : Text
  pub local_addr : Text
  pub local_port : Text
  pub remote_port : Text

pub record ExpandedProxy : Type 0 where
  pub name : Text
  pub proxy_type : Text
  pub local_addr : Text
  pub local_port : ℤ
  pub remote_port : ℤ

-- The errors, each behind the proxy's name; `panics` is an index out of range or a failing `make`.
pub data ExpandError : Type 0 where
  invalid_local_port invalid_remote_port : Text → PortError → ExpandError
  count_mismatch : Text → ℤ → ℤ → ExpandError
  panics : ExpandError

-- `fmt.Sprintf("%s_%d", p.Name, i)`
unfoldable pub indexed_name : Text → ℕ → Text
indexed_name name i = name ++ b'_' ∷ format_nat i

abbrev pub entry : ProxyConfig → Bool → ℕ → ℤ → ℤ → ExpandedProxy
entry p many i l r = record {
  name = if many then indexed_name p.name i else p.name;
  proxy_type = p.proxy_type;
  local_addr = p.local_addr;
  local_port = l;
  remote_port = r;
}

-- The loop over the index; `many` is `len(localPorts) > 1`.
unfoldable pub expand_loop :
    ProxyConfig → Bool → ℕ → List ℤ → List ℤ → Result ExpandError (List ExpandedProxy)
expand_loop p many i [] remotes = ok []
expand_loop p many i (l ∷ locals) [] = err panics
expand_loop p many i (l ∷ locals) (r ∷ remotes) = do
  rest ← expand_loop p many (i + 1) locals remotes
  ok (entry p many i l r ∷ rest)

unfoldable pub expand : ProxyConfig → Result ExpandError (List ExpandedProxy)
expand p = do
  local_range ← wrap_error (invalid_local_port p.name) (parse_port_range p.local_port)
  remote_range ← wrap_error (invalid_remote_port p.name) (parse_port_range p.remote_port)
  refuse_if (not (eqb_ℤ (count local_range) (count remote_range)))
      (count_mismatch p.name (count local_range) (count remote_range))
  locals ← or_fail (ports local_range) panics
  remotes ← or_fail (ports remote_range) panics
  expand_loop p (ltb 1 (length locals)) 0 locals remotes

-- `fmt.Sprintf("%s:%d", e.LocalAddr, e.LocalPort)`
unfoldable pub get_local_address : ExpandedProxy → Text
get_local_address e = e.local_addr ++ b':' ∷ format_int e.local_port
