-- ===== src/Genie/Command.antt =====
-- The commands of cni-genie.go.
use cni_genie.Base.{Option, none, some, Cmd, raise, lift, wrap, ◌>>=◌}
use cni_genie.Types.{CniArgs, NetConf}
use cni_genie.Genie.Host.{Host, Error, call, at, plain, load_net_conf, add_ip, release_ip}
use cni_genie.Genie.Args.{populate_cni_args, parse_cni_conf}
use cni_genie.Genie.Pod.{add_pod_network, delete_pod_network}

module _ (h : Host) where
  open h use {State, CniResult, print_result}

  abbrev pub M : Type 0 → Type 0
  M A = Cmd State Error A

  -- a nil result is an error too
  unfoldable pub print_or_fail : NetConf → Option CniResult → M (Unit {0})
  print_or_fail conf none = raise (plain add_ip)
  print_or_fail conf (some r) = wrap call (print_result r conf.cni_version)

  unfoldable pub cmd_add : CniArgs → M (Unit {0})
  cmd_add args = do
    conf ← wrap (at load_net_conf) (lift (parse_cni_conf h args.stdin_data))
    result ← wrap (at add_ip) (add_pod_network h (populate_cni_args args) conf)
    print_or_fail conf result

  unfoldable pub cmd_del : CniArgs → M (Unit {0})
  cmd_del args = do
    conf ← wrap (at load_net_conf) (lift (parse_cni_conf h args.stdin_data))
    wrap (at release_ip) (delete_pod_network h (populate_cni_args args) conf)
