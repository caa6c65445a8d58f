-- ===== src/Lib.antt =====
-- A model of the parts of codex-dock that decide what a sandboxed worker may reach, and the theorems
-- about them.
--
-- The program runs coding agents in containers and VMs. A worker has no credentials: it holds a
-- short-lived token for an authentication proxy, which checks each request and adds the real
-- credentials; the connections of the proxy and of the worker's egress go through a network policy,
-- whose refusals are kept as policy events; a VM worker is launched under a lease of the VM guard.
-- The execution node puts each worker on an internal network, with its proxies; the policy of a
-- worker's egress proxy narrows that of the host; a manager stops and removes workers by their
-- lifecycle settings.
--
-- The files and the code they model (paths from the root of the repository):
-- - NetworkPolicy and its children: internal/networkpolicy. Host has normalizeHost and parseDomain,
--   Authority has ParseDestination and Destination.String, Domains the domain index and
--   DomainWithin, Compile has Compile, Check has CheckDestination, CheckAddress, IsPrivate and All,
--   Explain has Explain and Reason, Dialer has DialContext. Netip has what the package uses of
--   net/netip.
-- - AuthProxy and its children: internal/authproxy and pkg/cxd/identity. Identity has Identity and
--   ModelPolicy with their checks, State the fields of Proxy that p.mu protects with
--   replaceTokenLocked and removeTokenLocked, Tokens the operations of tokens.go, restore.go and
--   case_generation.go, and Stop of proxy.go, Requests has workerRequest, the route tests and the
--   handlers of tokens.go, Models has authorizeModel. Tokens/Steps has the locked operations as the steps of one relation,
--   in any order.
-- - KataGuard/Records and KataGuard/Launch: internal/kataguard/launch.go, the launch records on the
--   disk, and claimLaunch, finishLaunch and abortLaunch. The allocation of a key (RequestAllocation,
--   a hash) is an argument.
-- - KataGuard/Profiles and KataGuard/Ledger: the resource profiles of resources.go and
--   profile_registry.go, and the allocation records of ledger_linux.go (readRecord, writeRecord,
--   trackAllocation) in the same package.
-- - PolicyEvents: internal/policyevents/events.go, the bounded store of events.
-- - WorkerEgress and its children: internal/workeregress. WorkerEgress has Rules, Configured and the
--   presets, Arguments the arguments that Ensure gives a proxy and ParseProxyRules, Reference
--   proxyReference.
-- - Engine/Networks and its children: internal/engine/network.go. Networks has the records, network
--   and createNetwork, Endpoints connect, disconnect and removeNetwork; Networks/Steps has requests
--   as the steps of one relation, in which any save or command may fail.
-- - Engine/Jobs: recoverJobs of internal/engine/jobs.go, which loads the background jobs after a
--   restart.
-- - Sandbox/Reap: Reap and stopIdle of internal/sandbox/policy.go, with the calls that change workers
--   as an interface of the node.
-- - Sandbox/Runtime: internal/sandbox/runtime.go, ResolveRuntime, validateRuntime and CheckRuntime,
--   with the daemon, the profiles by name and the guard of the node as arguments.
-- - Template: internal/template, Validate with its requirements, IsDerived and Tag.
-- - WorkerPolicy: internal/workerpolicy/temporary.go, the temporary file systems of a worker.
-- - Common: tests, lists, text, association lists and results that these share.
-- The modules called Samples run the definitions on concrete inputs. All other children are proofs
-- about their parent.
--
-- How the model stands to the code:
-- - A string is the list of its bytes. strings.TrimSpace and strings.Fields are
--   modelled on ASCII text, strings.ToUpper for the lines of a Dockerfile too. strings.ToLower is
--   modelled for ASCII and the two characters that have an ASCII lower case (U+0130, U+212A);
--   the others keep a byte that no label may hold.
-- - A Go map is an association list. A loop over a map that deletes visits the keys it had at the
--   start.
-- - Reading and printing an address are the fields of the record Netip, which stands for net/netip;
--   the arithmetic of addresses, prefixes and their classes is written out.
-- - The resolver and the connector of a dial, the answer of the credential store, the random tokens
--   and leases, the disk and the engine of the guard, and the encoding of the worker's ID token are
--   arguments.
-- - The body of a model request is what the JSON decoder finds in it: the members in order, each with
--   its value as far as a model name is read from it. The body that is passed on unchanged is left
--   out of the answer.
-- - path.Clean appears only in the test that it leaves an absolute path alone, which is written as a
--   test of the parts between the slashes; sort.Slice is an insertion sort. The length of the JSON
--   text of the file systems is an argument.
-- - A context is live or done for the whole of one call. The context of a token is the number of its
--   lease, with a list of the leases that were cancelled, and ends at the deadline of its record.
-- - Instants of the proxy are natural numbers of nanoseconds, and a TTL becomes a 64-bit duration,
--   which wraps as in the source; those of the launches and the events are numbers of seconds. An
--   Authorization value is given as its strings.Fields.
-- - A caller of issue or restore runs its checks and its locked part with nothing in between; the
--   locked parts stand alone in the step relation, where anything may come between them. A step that
--   issues a token takes one that no record has, since tokens are 32 random bytes.
-- - Printing a number has the number and one as fuel, which is more than its digits. The search for
--   an interface name has one more pass than there are used names, which is enough. The searches for
--   a subnet and for an address are bounded in the source. Nothing else runs on fuel.
-- - The addresses of interfaces and the destinations of routes are texts, and netip.ParsePrefix is a
--   field of Host. Stop is modelled up to the shutdown of the servers.
-- - The kernel commands and the saves of the network code are answers of a record Host: a save that
--   fails leaves the disk as it was. A network record on the disk is as it was saved.
-- - The directories that recoverJobs reads are lists of entries, each with what its file decodes to;
--   an execution that the code changes through its pointer is entered again.
-- - An allocation record is what its file decodes to, and a write that fails leaves the files as they
--   were.
-- - In Reap an instant is a number of nanoseconds, and decoding a policy or a time is an argument.
--
-- Not modelled: HTTP and JSON themselves, the OAuth refresh and the broker's upstream requests, the
-- containers and streams of the engine and the other operations of its jobs, the rest of the sandbox
-- manager and the command line, which drive containerd, Docker, git and the disk; the worker options
-- and the lookup of templates.
pub mod Common
pub mod Engine
pub mod NetworkPolicy
pub mod AuthProxy
pub mod KataGuard
pub mod PolicyEvents
pub mod Sandbox
pub mod Template
pub mod WorkerEgress
pub mod WorkerPolicy
