-- ===== src/Lib.antt =====
-- VaisX: the application framework under packages/vais-web/packages. This library models components
-- of it that hold logic of their own, one module of this folder to a component; paths are from
-- there.
--
--   Prelude     what the modules share: tests, lists, texts, JavaScript's `Map` and `Set`.
--   Router      kit/src/router: the tree of routes from the scanned files (Router/Tree), matching a
--               URL against it (Router/Split, Order, Matcher) and what a match resolves to
--               (Router/Resolver): layouts, middleware, error boundary and loading file.
--   Middleware  kit/src/middleware/runner.ts: runMiddlewareChain, for the chain of a route.
--   WsClient    kit/src/ws/client.ts: createWebSocket. The variables that it closes over are the
--               record Client; connect, disconnect, send, on and onStream are functions of that name,
--               and the events of the socket and the timer are socket_opens, socket_errs,
--               socket_closes, handle_message and timer_fires.
--   Auth        auth/src/session.ts (Auth/Session): the class SessionManager with its store of refresh
--               tokens; a refresh is two steps, begin_refresh and end_refresh, around its await. auth/src/security.ts (Auth/Security): the comparison in constant time, the check
--               of CSRF tokens, the options of cookies and the escaping of HTML.
--   Reactive    runtime/src/signal.ts and scheduler.ts: signals, computed signals, effects and the
--               queue that runs them in a microtask.
--   QueryCache  query/src/cache.ts: the class QueryCache, with its shared records and timers.
--   InfiniteQuery  query/src/infinite.ts: createInfiniteQuery. A fetch is two steps, begin_fetch and
--               end_fetch, between which others may start and end.
--   Mutation    query/src/mutation.ts (Mutation/Plain) and optimistic.ts (Mutation/Optimistic), which
--               reads and writes a QueryCache.
--   Store       store/src/store.ts: the state of a store, its patches and its reset.
--   EventBus    federation/src/event-bus.ts: createEventBus.
--   Plugin      plugin/src/container.ts: the class PluginContainer. A hook takes the state of the
--               world and gives a new one, so that the order of the calls shows.
--   Query       db/src/query.ts: the builders of statements. A statement is a list of texts and numbers
--               of placeholders; the class QueryBuilder is the record of its fields.
--   Migration   db/src/migration.ts: migrations, their statements, diffSchemas (Migration/Diff) and the
--               class MigrationRunner (Migration/Runner). The callbacks `up` and `down` are the lists
--               of the calls that they make on the builder.
--   Sse         ai/src/stream.ts: parseSSEStream and consumeTextStream.
--   Rag         ai/src/rag.ts: the splitter of documents (Rag/Splitter), the vector store (Rag/Store) and
--               the pipeline over both (Rag/Pipeline).
--   Fallback    federation/src/fallback.ts: retries (Fallback/Retry), versions (Fallback/Versions) and
--               the circuit breaker (Fallback/Circuit), whose calls are two events, start and end.
--   I18n        i18n/src: router.ts (I18n/Locales), messages.ts and translate.ts (I18n/Messages).
--   Validation  forms/src/validation.ts: the rules of fields and the errors of a form.
--   Form        forms/src/form.ts: createForm. A submission is two steps, begin_submit and end_submit.
--   FieldArray  forms/src/field-array.ts: the operations of useFieldArray on the list of the form.
--   Navigation  native/src/navigation: the stack, tab and drawer navigators.
--   Bridge      native/src/bridge.ts: createBridge, its queue of messages, its calls and its listeners.
--
-- The router's tree comes from buildRouteTree and is what matchRoute walks; its RouteMatch is what
-- resolveRoute resolves against the same tree. Middleware runs a chain of such handlers. The
-- migrations that diffSchemas makes are what MigrationRunner runs, and optimistic mutations use the
-- cache. A form checks its fields by Validation. The other components do not call one another.
--
-- An absent value (`undefined`, `null`) is `none`; a thrown error is `none` or a value of a result
-- type. Functions, promises, sockets, signals and timers that code passes about are numbers. A call
-- returns the new state and what it does outside, in order; a callback that runs there makes its
-- own calls as later steps, though in the code it makes them before the next callback runs. Where
-- subscribers run in a loop over a set (QueryCache, Store, Form) they are taken not to throw, which
-- would end the loop, and not to add or remove subscribers while it runs; and the handlers of a bridge
-- not to call the bridge while they run, as a second flush within the first would hand out later
-- messages before the rest of the first batch. The handlers of EventBus and Bridge, the functions of
-- Reactive and the rest of what is called may throw as the code allows. Times are milliseconds that are not negative. Strings are sequences of
-- code points.
--
-- The walks of the router over a tree are on fuel. The fuel is the number of nodes of the tree,
-- which is enough: Router/Matcher/Fuel.antt. The loops of loadWithFallback and createMutation have
-- fuel for one turn more than they can make (Fallback/Retry/Laws, Mutation/Plain/Laws), and that of
-- the splitter is above the length of the text, which is enough if its windows advance
-- (Rag/Splitter/Windows). Other loops go down a list or a tree.
--
-- Numbers read from text are exact, also above 2 ^ 53. The keys of plain objects are no array
-- indices, so that they keep their order.
--
-- Arguments of the model: JSON, the encoding of tokens and random identifiers, the text of numbers
-- and dates, the order of `localeCompare`, what a text decoder gives for the bytes of a chunk, the
-- tests of regular expressions that a caller passes, the numbers of `Number`, `Object.is` and
-- `===` on values, the floating point numbers and embeddings of the vector store, the encoder to
-- UTF-8, the bodies of effects, what handlers and native methods do, the hooks of plugins, and
-- what every object has from `Object.prototype`.
--
-- Not modelled: rendering, the DOM, adapters to servers, the file system, editor integration,
-- animation on floating point numbers, tokens that rest on Web Crypto, and the compiler, the server and
-- the database of the repository, which are in other languages. Left out for the size of this library:
-- hot reloading (hmr), the models and clients of db, the remotes, shared stores and routes of federation,
-- and the checks of a11y.
mod Prelude
pub mod Router
pub mod Auth
pub mod WsClient
pub mod Navigation
pub mod QueryCache
pub mod Reactive
pub mod EventBus
pub mod Plugin
pub mod FieldArray
pub mod Middleware
pub mod Query
pub mod Migration
pub mod Sse
pub mod Fallback
pub mod I18n
pub mod Mutation
pub mod Store
pub mod Validation
pub mod Rag
pub mod InfiniteQuery
pub mod Bridge
pub mod Form
