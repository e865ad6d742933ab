-- ===== src/Client/Setup.antt =====
-- internal/client/client.go: New, the table of the client's proxies.
pub mod Complete
use qtrp.Common.{List, [], ◌∷◌, Result, ok, err, ◌>>=◌}
use qtrp.Config.Load.{ClientConfig}
use qtrp.Config.Proxy.{ProxyConfig, ExpandedProxy, ExpandError, expand}
use qtrp.Go.Map.{Key, text_key, store}
use qtrp.Go.Strings.{Text}

-- map[string]*config.ExpandedProxy
abbrev pub Table : Type 0
Table = List (Text × ExpandedProxy)

-- The inner loop: an entry replaces one of the same name.
unfoldable pub add_all : List ExpandedProxy → Table → Table
add_all [] t = t
add_all (p ∷ ps) t = add_all ps (store p.name p t)

-- The outer loop over the configured proxies.
unfoldable pub collect : List ProxyConfig → Table → Result ExpandError Table
collect [] t = ok t
collect (p ∷ ps) t = do expanded ← expand p; collect ps (add_all expanded t)

-- The proxies of New; the transport and the encryption are chosen in Layers.
unfoldable pub table_of : ClientConfig → Result ExpandError Table
unfolding collect
table_of cfg = collect cfg.proxies []
