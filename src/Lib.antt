-- ===== src/Lib.antt =====
-- Gopher CNI: a CNI plugin that routes a pod's traffic through a WireGuard tunnel, and the
-- admission webhooks that check and patch the pods that ask for it. The development models both,
-- from the text of a WireGuard configuration to the calls made of the kernel, and the installer that
-- brings the plugin to a node and takes it off again.
--
-- A pod asks for the tunnel by a label, and names a secret and its options by annotations. The
-- validating webhook checks the annotations, and the split-tunnel networks against the
-- configuration in the secret; the mutating webhook patches the pod. When the pod starts, the
-- plugin reads the same annotations and the same secret and sets up the pod's network. On each node
-- the installer copies the plugin's binary, writes its kubeconfig and puts its entry into the CNI
-- configuration list; it also takes the plugin's logs over a Unix socket, and cleans up at its end.
--
-- Prelude and its children are the shared helpers: tests and lemmas on numbers, lists, options and
-- results; a fallible function returns a Result. Go models what the program uses of Go's standard
-- library: Text (strings as code points, with the functions of strings), Int (strconv.Atoi), Lines
-- (bufio.Scanner), Ip, ParseIp and ShowIp (net.IP and net.IPNet: Contains, ParseIP, ParseCIDR,
-- String), Dict (maps of strings), Json (map[string]any), Order (slices.Sort), Path (path/filepath),
-- Base64 (encoding/base64, and the escaping of html/template). Actions is for code that fails and
-- changes a state.
--
-- * Cni is internal/cni/types.go: the names of labels, annotations and modes.
-- * Utils is internal/utils/net.go: ParseIPOrCIDRList. Utils/Env is internal/utils/env.go: GetEnv.
-- * Kubernetes is internal/kubernetes/kubernetes.go. The API server is the record Clientset.
-- * Wireguard is internal/wireguard/configure.go (Wireguard/Configure its last function), and
--   Wireguard/Parser is internal/wireguard/parser.go: State holds the variables of the loop of
--   ParseConfig, parse_line is its body. Lines, Invariant, Steps, Sound and Peers are its theorems.
--   Parser/Print says apart from the parser what the file of a configuration is, with the printed
--   numbers of Go/Int/Show, the printed networks of Utils/Printed and the files of Go/Lines/File;
--   Print/File is about the way back.
-- * Webhook/Types, Admission, Validate, SplitDns and Mutate are the files of internal/webhook of the
--   same names. Validate/Overlap is about the overlap test, Mutate/Patching says what a patch does to
--   a pod, Mutate/Outcome what the patches of the webhook do together, Responses what is answered.
-- * Plugin/Kernel is the kernel as the plugin sees it; Plugin/Net is plugin/cmd/net.go, a program
--   over a trace of calls; Plugin/Provider is plugin/cmd/kubernetes.go; Plugin/Commands is
--   plugin/cmd/cmdAdd.go, cmdDel.go, cmdCheck.go, cmdStatus.go and config.go. Net/Calls and Net/Modes
--   give the calls of a set-up, Provider/Maps the walk over a map, Commands/Laws and Commands/Planned
--   the Add command. Plugin/Errors is errors.go, Plugin/Main is plugin/plugin.go.
-- * Sidecar is internal/sidecar: the check of the interface, and the writing of the Corefile.
-- * Installer is internal/installer. Os is the file system, whose calls may be refused, with
--   internal/utils/file.go, and Os/Reliable one that refuses none. CniConfig is the plugin's entry in
--   a CNI configuration list (insertCNIPluginConfig, removeCNIPluginConfig), CniFile the rest of
--   cniconfig.go; Binaries, Kubeconfig and Install are the files of the same names, Config is
--   config.go, pluginconfig.go and NewInstaller. CniConfig/History is about runs one after another,
--   CniFile/Network about the choice of the list and the wait for it, Install/Removal and Restore
--   about what Uninstall leaves, Install/Idempotence about a second one, Install/Whole about both
--   together; CniConfig/Refinement has the specification of the entry.
-- * Logging is the level and the handler of internal/logging/logging.go, Logging/Logger its Logger
--   and error.go, with Printed about what is written; Logging also has newLogger of
--   plugin/cmd/logging.go; Plugin/Logging is that file's writer and its attributes. Udslog is
--   internal/udslog/uds.go: Socket is the listener, Records what becomes of a line.
--   Plugin/Logging/Delivery follows a record from the one to the other.
-- * Network is internal/net/netns.go and route.go, on the routes of a namespace; Network/DefaultRoute
--   is about the exchange of its default route.
-- * Webhook/Server is internal/webhook/server.go: the routes, TLS, and how Run ends;
--   Server/Answers is about what it answers.
-- * Cmd is cmd: WebhookMain, InstallerMain and SidecarMain are the three main.go, Env their use of
--   GetEnv, Shutdown the goroutines of the two servers' mains, with Shutdown/Progress about their
--   runs. WebhookMain/Startup and InstallerMain/Startup are the mains up to their servers,
--   InstallerMain/Servers is what the installer's main then runs. WriteCorednsConfig is
--   cmd/write-coredns-config, which does what the sidecar does.
-- * Tunnel relates the two sides. Routing states the kernel's choice of a route apart from the code,
--   by longest prefix; Installed computes the routes that the plugin's calls put into the main table;
--   Protection and Agreement say what the webhook's acceptance means for the plugin, Whole puts them
--   together for the host-origin mode. Container does so for the pod-origin mode, and Endpoint is
--   about the routes to the peers' endpoints. Planned says that the webhook and the plugin read one
--   secret, and Admitted follows a pod from the webhook's answer to what Add does for it;
--   Go/ShowIp/RoundTrip is what it needs of an address that is printed and parsed again.
-- * Examples runs the model on concrete values.
--
-- Bounds. A line of 65,536 bytes or more ends the scan with an error, as bufio.Scanner does. An IPv6
-- address has at most eight groups, so the recursion of its parser is on the eight groups left,
-- which is enough for every text. Numbers are checked against the range of Go's 64-bit int, and the
-- keepalive's product with time.Second wraps around at 64 bits.
--
-- The wait for a CNI configuration is a loop without an end, run on fuel; a theorem says that it
-- returns when there is something to return, and how much fuel is enough.
--
-- Parameters. Decoders: wgtypes.ParseKey and net.ResolveUDPAddr. Codec: encoding/json on the types
-- of the admission API. Host: the CNI library. JsonCodec and Libcni: encoding/json on the
-- installer's maps, and the CNI library's reading of a directory. LogCodec: encoding/json and
-- time.Parse in the log server. Os: whether a call on files is refused and what it then leaves;
-- some theorems are about a system that refuses none, and say so. Kernel: netlink, wgctrl and the
-- namespace package; it may refuse any call, and a call that it refuses is not in the trace.
-- Netlink: netns and netlink under internal/net, whose answers depend on the routes of the namespace;
-- IsTable states what netlink documents. Post: the HTTP client of the plugin's log, on a state that
-- the server keeps; IsServed says that its posts reach that server. JSON of slog's handler is
-- written out as the fields of the object, and its text is a parameter. ClientGo: the constructors
-- of client-go. KeyPairs: tls.LoadX509KeyPair. Encoders: the printing of keys and endpoints.
-- Nothing else is assumed of them. A nil pointer that the code follows is an error of its own
-- (nil_endpoint, nil_client).
--
-- Not modelled: texts of messages and logs, and the transport of HTTP and TLS. Closing a handle has
-- no effect in the model.
mod Prelude
pub mod Go
pub mod Cni
pub mod Actions
pub mod Utils
pub mod Kubernetes
pub mod Wireguard
pub mod Webhook
pub mod Network
pub mod Plugin
pub mod Sidecar
pub mod Installer
pub mod Logging
pub mod Udslog
pub mod Cmd
pub mod Tunnel
pub mod Examples
