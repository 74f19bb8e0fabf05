-- ===== src/Lib.antt =====
-- g0efilter: the egress filter of a container host and its dashboard. Traffic of the filtered
-- containers is redirected to a DNS proxy and to HTTP and HTTPS proxies, which pass a request on
-- only when the policy permits its host, and every decision is logged and sent to the dashboard.
--
-- Parts and files:
-- Prelude          shared names, Boolean tests and list lemmas over the native numbers.
-- Text             Go strings as lists of bytes, with the functions of `strings` that the code calls
--                  (Text/Laws, Text/Split: their laws), and the runes of a string (Text/Runes).
-- Assoc            Go maps with string keys as association lists.
-- Host             internal/filter/validate.go: `sanitizeHost`, `sanitizeDNSQname` and what they
--                  call. Host/Valid describes a host name without the code; Host/Sanitize,
--                  Host/Reason and Host/Qname compare the code with it.
-- Pattern          internal/policy/policy.go: the compilation of domain patterns.
--                  Pattern/Wildcard describes what a wildcard pattern covers.
-- Entry            internal/policy/policy.go: `validateIP`, `validateDomain` and what they call.
-- PolicyFile       internal/policy/policy.go: `Read`, `ReadPolicy`, `AppendDomain`, `AppendIP` and
--                  what they call. PolicyFile/Readable says which files `Read` accepts.
-- Learner          internal/g0efilter/learner.go: the values seen in learning mode. A run is a list
--                  of observed values and of flushes.
-- Matcher          internal/filter/common.go: `normalizeDomain`, `cachedCompile`, `hostMatcher`
--                  and `matchPattern`; the process-wide `regexCache` is a value passed along.
-- Permit           internal/filter/common.go: `Options`, `hostPermittedBy` and the learning reports.
-- DnsLimiter       internal/filter/dns_hardening.go: the token buckets per source.
-- Dns              internal/filter/dns_hardening.go and dns_filter.go: the checks of queries and
--                  answers, `forward` and `extractAnswerIPs`.
-- DnsFilter        internal/filter/dns_filter.go: `handle` and what it calls. A request is answered
--                  by the list of the events it causes, in their order.
-- Hello            internal/filter/clienthello.go: the ClientHello reader of the HTTPS proxy.
-- Hello/Wire       the wire format of the ClientHello, as an encoder.
-- Store            internal/dashboard/store.go: the ring buffer of log entries of the dashboard.
-- Unblock          internal/dashboard/unblock.go: pending and completed unblock requests.
-- Broadcaster      internal/dashboard/broadcaster.go: the clients of the event stream.
-- Flow             internal/actions/flow.go: `FlowID`, `MarkSynthetic` and `IsSyntheticRecent`.
-- Conn             internal/filter/common.go: addresses, synthetic events and log lines.
-- ConnFilter       internal/filter/http_filter.go and https_filter.go: the two connection handlers, as
--                  lists of effects. ConnFilter/Contacts says what is observed of the effects, and
--                  ConnFilter/Decided what the policy makes of a connection.
-- Nftables         internal/nftables/nftables.go: the rulesets as tables of rules (Filter, Nat,
--                  Generate), their application (Apply) and, from resolved.go, the resolved sets
--                  (Resolved). Nftables/Kernel and Nftables/Script say what the kernel does with
--                  rules and scripts; Nftables/Policy describes the decisions without rules.
-- Nflog            internal/nftables/nftables.go: the callback of the kernel's packet log.
-- Tests            the theorems at concrete inputs.
--
-- A packet first meets the nat chain, which sends HTTP, TLS or DNS to the proxies, and then the filter
-- chain. The proxies ask Permit about the name that they find and dial with a mark that both chains
-- let pass; in dns-strict mode the DNS proxy hands resolved addresses to the resolved sets.
--
-- The DNS proxy uses the limiter first, then the name check of Host, the checks of Dns, the decision
-- of Permit, and `forward`; Permit uses Matcher, which uses Pattern. The learner gets what Permit
-- reports and appends it to the policy file that PolicyFile reads.
--
-- A function that changes shared state takes the state and returns it beside its result; a lock
-- makes a method one step. Texts are ASCII bytes where case is folded. Times are nanoseconds and
-- counters are unbounded, and the tokens of the limiter are exact where the code has floats. The
-- ClientHello reader runs on fuel: one more than the length of the stream for the records, and the
-- length of the block for its lists, which each step shortens. Outside the model and a parameter of
-- it are the package cryptobyte (Hello/Reader, with the laws that its documentation states), the
-- package `miekg/dns` with the network (`Dns.Network`), and the functions of `regexp`, `idna`, `net`
-- and `unicode` that the policy calls (`Pattern.Env`), the address parsers of `net` and the runs of
-- `nft` (`Nftables/Apply`), the packet decoders (`Nflog.Decoder`), and the package `yaml` with the
-- file system (`PolicyFile.Yaml` and `PolicyFile.Write`). What the kernel finds in an address set is
-- `Nftables/Kernel.Sets`.
--
-- Not modelled: listeners, sockets and the copying of bytes between connections, the other parts of
-- the dashboard, alerting, logging, process attribution, and start-up code.
pub mod Prelude
pub mod Text
pub mod Assoc
pub mod Host
pub mod DnsLimiter
pub mod Store
pub mod Hello
pub mod Pattern
pub mod Entry
pub mod Matcher
pub mod Permit
pub mod Dns
pub mod DnsFilter
pub mod Flow
pub mod Conn
pub mod Nftables
pub mod Nflog
pub mod ConnFilter
pub mod PolicyFile
pub mod Learner
pub mod Broadcaster
pub mod Unblock
pub mod Tests
