-- ===== src/Lib.antt =====
-- The web client of VentoPanel, a panel for servers and sites: its calls of the API, its session, and the
-- pages and components whose state or computation can go wrong. The client is the Next.js
-- application under frontend/; the API server is the Go program under cmd/ and internal/, of which
-- only the table of routes is here, since the client is checked against it.
--
-- Parts, their files, and the code they are about:
-- - Base: shared names, lists over native numbers, texts, JavaScript's objects as association lists,
--   and `trim`, `toLowerCase`, `split`, `includes`, `String(n)`. A text is a list of character codes.
-- - Api: frontend/lib/api.ts. Api/Uri is `encodeURIComponent`, the form encoding of
--   `URLSearchParams`, and how a server reads a query and, in Api/Uri/Paths, a path. Api/Session is the token in the local
--   storage (`getToken`, `setToken`, `clearToken`, `isTokenValid`, `getTokenPayload`, `getRole`).
--   Api/Fetch is `apiFetch`: `request_of` up to its `fetch`, `receive` after it. Api/Calls has one
--   `ApiCall` for each exported function that goes through `apiFetch`, in the groups Servers,
--   Sites, Account, Panel, Files and Nginx; `perform` runs one. Api/Raw has the functions that
--   call `fetch` themselves. Api/Routes is the table of internal/transport/http/router.go and when
--   it serves a method and a path; Api/Routes/Served goes through the calls group by group.
-- - Permissions: frontend/components/permissions-modal.tsx. `settle` is the effect that React runs
--   after a handler that replaced the bits.
-- - Files: frontend/app/(dashboard)/files/page.tsx. Paths has its regular expressions as
--   recursions, Location the address of the page, Selection the ticked items, Dialogs what the
--   dialogs send and how they close, Uploads the memoised handler of the uploads; Addresses, Toggles,
--   Requests and Targets are about these.
-- - Editor: frontend/components/file-editor.tsx, with the file on the server as part of the state.
-- - Logs: frontend/app/(dashboard)/logs/page.tsx: `stripAnsi`, the buffer of lines, the addresses, the
--   stream with its retries as steps on events, and the choices of what is streamed (Controls).
-- - Monitor: frontend/app/(dashboard)/monitor/page.tsx, a stream of the same kind, with the points of
--   the charts. Terminal: frontend/components/terminal-client.tsx, the web socket and what is sent over
--   it, with the choice of the server in frontend/app/(dashboard)/terminal/page.tsx. Streams goes through the
--   addresses of both, which do not use `apiFetch`.
-- - Sites: frontend/app/(dashboard)/sites/[id]/page.tsx. LogStream reads the log of the
--   container; Settings has the variables, aliases, webhook, rollback and restart, Guide the files for the
--   webhook, Actions deploying and deleting; Chunks, Kept, Requests, Rollbacks and Visible are about these.
--   Live has the requests of the log with their controllers, as a relation of steps, and Current what the page
--   shows of them; KeySets is the quotient of the keys whose values are shown, by the order in which they came.
-- - Nginx: frontend/app/(dashboard)/nginx/page.tsx, the editor of a virtual host with its file on the server,
--   and the dialogs.
-- - Forms: frontend/components/server-form.tsx and frontend/components/site-form.tsx. Tables: the badges and dots of
--   frontend/components/servers-table.tsx, frontend/components/sites-table.tsx and of the pages of one server and one site.
--   Tables/Rows has the buttons and dialogs of the rows of both tables, over the interface `Rows` of their calls, which
--   Tables/Kinds fills for each; Sent and Visitors are about them.
-- - Queries: the hooks frontend/hooks/use-servers.ts, use-sites.ts, use-server-stats.ts, use-recent-audit.ts,
--   use-server-mutations.ts and use-site-mutations.ts beside it; Stale is about what a mutation refreshes.
-- - Security: frontend/app/(dashboard)/security/page.tsx, the second factor and the API tokens. Account:
--   frontend/app/(dashboard)/profile/page.tsx and frontend/app/(dashboard)/settings/page.tsx.
-- - Users: frontend/app/(dashboard)/users/page.tsx. Dashboard: frontend/app/(dashboard)/page.tsx. Backups:
--   frontend/app/(dashboard)/backups/page.tsx. Servers: frontend/app/(dashboard)/servers/[id]/page.tsx. Uptime:
--   frontend/app/(dashboard)/uptime/page.tsx. Templates: frontend/app/(dashboard)/templates/page.tsx. Refresh:
--   frontend/components/refresh-indicator.tsx.
-- - Login: frontend/app/login/page.tsx, a client of Api/Raw and Api/Calls. Landing composes it with
--   Access/Layout, the check of the session in frontend/app/(dashboard)/layout.tsx.
-- - Audit: frontend/app/(dashboard)/audit/page.tsx, the classes and chips of events, their ages, the search
--   and the counts, and frontend/hooks/use-audit.ts, the pages that are loaded, with the server as a parameter.
-- - Proxy: frontend/app/api/v1/[...path]/route.ts, through which every call goes.
-- - Access: frontend/hooks/use-auth.ts and frontend/components/nav.tsx.
-- - Palette: frontend/components/command-palette.tsx.
-- - Onboarding: frontend/components/onboarding-wizard.tsx.
--
-- How state is modelled. The states and refs of a component are one record; a handler is a function
-- on it, and a `step` function says for each event which handler runs, with the conditions under
-- which the page offers it. An awaited call is either two functions, for what runs before and
-- after it, or one step where nothing can come between; the comment of the module says which. What
-- the browser keeps (token, address of the window) is the record `Browser` that the calls take and
-- give back. An exception is a value: `threw` of an `Outcome`, or `none`. `useAuth` keeps the role that it reads when a
-- page is mounted, so a page has that browser as `mounted`. A run is a list of events, each with its step.
--
-- Parameters. `fetch` is a function from a request to the reply of this time, or none where the
-- promise is rejected. `JSON.parse` and the decoding of base64 are functions from texts; that
-- `atob` refuses the characters of base64url, and leaves out spaces, is written out. That the server matches decoded paths
-- is what `gin` does by default (cmd/api/main.go). The time is an argument. `TextDecoder`
-- is left to the caller: a chunk of a response is the text that it stands for. In Files/Selection
-- an argument says whether React runs an update at once or at the next render. In Queries the matching
-- of keys is a parameter, of which `MatchesFirst` states what the library documents of keys of one word.
--
-- Bounds. The recursions are on their texts and lists; only `show`, the digits of a number, counts
-- rounds, one more than the number, which has fewer digits than that. Numbers are unbounded: of those the
-- client computes JavaScript would round only the quotient of a percentage, as Monitor/Points says.
--
-- Not modelled: markup and styles, toasts, the caches of the query library where a comment does not say
-- otherwise, the page that only shows what calls return (observability), the lists of the page of a server,
-- the cards of the page of a site for its history, certificate and uptime, the cards of a template, the
-- timers of the queries, texts with surrogates that stand alone, for which `encodeURIComponent` throws, and the Go
-- server apart from its routes.
pub mod Base
pub mod Permissions
pub mod Api
pub mod Files
pub mod Logs
pub mod Sites
pub mod Login
pub mod Editor
pub mod Palette
pub mod Proxy
pub mod Refresh
pub mod Access
pub mod Onboarding
pub mod Dashboard
pub mod Backups
pub mod Servers
pub mod Uptime
pub mod Users
pub mod Security
pub mod Monitor
pub mod Tables
pub mod Queries
pub mod Templates
pub mod Account
pub mod Forms
pub mod Streams
pub mod Terminal
pub mod Nginx
pub mod Audit
