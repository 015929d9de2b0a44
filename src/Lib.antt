-- ===== src/Lib.antt =====
-- The front end of the platform: a host application and its pages that it loads as federated bundles,
-- over one shared package of contracts. The development models what these parts decide and keep; what
-- they draw is left out.
--
-- The parts, and how they interact:
-- - packages/contracts/src is shared by every bundle: the access token of a page, the silent refresh
--   and the middleware of the API client that calls it, the claims of a token, the error of a failed
--   request with the retry policy, the gateway's address, and the breadcrumbs of an error report.
-- - apps/web/src is the host: the session, the guard of the pages, and the gate that chooses between the
--   login pages and the console. It hears of an expired session from the middleware, and of logins and
--   logouts in other tabs by a channel.
-- - apps/web-auth/src has the login pages: sign-in, reset, forgotten password, registration.
-- - apps/web-admin-users/src has the directory of users: paging, selecting, deleting with undo and
--   rollback, CSV export and import, and live updates.
-- - apps/web-admin-roles/src has the roles: the matrix of permissions, the editor, the simulation of
--   access, and the users of a role.
-- - packages/ui/src has the components that all pages share.
-- - apps/web/src/shell surrounds the pages of the console, with the command palette and the banners;
--   apps/web/src/ProductPage.tsx is the product console. Both log in by the session's `login`, where an
--   impersonation for support starts and ends.
-- - scripts/compose-specs.mjs puts the services' API descriptions together, check-contracts.mjs lints
--   the whole and the calls of the pages, and api-changelog.mjs compares it with that of another revision;
--   check-migrations.mjs guards the checksums of the migrations, check-coverage.mjs the tests of changed
--   lines, and registry-retention.mjs and ci-changes.mjs choose old images and the lanes of a change.
--
-- Files (X/Y.antt is a child of X.antt):
-- - Prelude: native numbers, lists and their members, sets as lists of keys, texts as lists of UTF-16
--   code units, a stable sort with a comparison for Array.prototype.sort, and regular expressions with
--   their matching test.
-- - QueryClient: the query cache of @tanstack/react-query, as a record of operations and laws.
-- - Contracts/Errors: apiEnvelopeSchema, AppError, safeApiData and shouldRetryQuery of runtime.ts, and
--   secureRequest of apps/web/src/lib/api.ts. Contracts/Gateway: resolveGatewayURL. Contracts/Claims:
--   decodeClaims. Contracts/Telemetry: addBreadcrumb.
-- - Contracts/Refresh: one bundle's part of refreshRequest, silentRefresh and the listener of the
--   channel "starter:auth". Contracts/Refresh/System: any number of bundles of any number of pages, with
--   the lock, its queue and the messages under way, as a step relation.
-- - Contracts/Client: onRequest and onResponse of createApiClient.
-- - Session: authReducer of auth-context.tsx. Session/Provider: the handlers and effects of AuthProvider
--   as one function of an event. Session/Guard: RequirePermission.tsx. Session/Gate: Gate, AdminRoutes,
--   AuthRoutes and handleLoggedIn of App.tsx. Session/Link: its TokenActionPage.
-- - Auth/Validation: auth-ui.tsx. Auth/Api: api.ts. Auth/Login, Auth/Reset, Auth/Forgot and
--   Auth/Register: the forms of the four pages, each asynchronous handler in two steps, up to its
--   request and from the reply on.
-- - Session/Impersonation: impersonate of ProductPage.tsx and the ImpersonationBanner.
-- - Users/Csv: csvCell and parseCsv. Users/Directory: the state and handlers of the table.
--   Users/Deletion: the mutation remove with queueDelete and requestDelete. Users/Import: importCsv, and
--   the saving of ProfileModal and RegisterUserModal. Users/Realtime: useRealtimeUsers. Users/Query: the
--   request for a page of users and its key. Users/Passwords: randomPassword. Users/Labels: deviceLabel,
--   deviceIcon and ipDescription.
-- - Roles: roleBody and the small functions of the page. Roles/Matrix: matrixToggle. Roles/Editor:
--   RoleModal, SimulateModal and CompareModal. Roles/Assignment: loadUsers, RoleUsersModal and
--   DeleteRoleModal. Roles/Listing: the list with its search, sorting and arrow keys. Roles/Portable:
--   exportJson and importJson. Roles/Sheet: exportCsv, which the parser of Users/Csv reads back.
--   Roles/Markup: Markdown and Highlight.
-- - Ui/Window, Ui/Reorder, Ui/Stored and Ui/Timing: of packages/ui/src/frontend.tsx, useVirtualList in
--   whole pixels, ReorderList, useLocalStorage in any number of tabs with the browser's storage events,
--   and useDebouncedValue with useThrottledValue. Ui/Toasts, Ui/Confirm and Ui/Focus: of ui-system.tsx,
--   ToastProvider, ConfirmProvider with the promise of each call of confirm, and trapTab.
-- - Shell/Palette: fuzzy and the list of results of CommandPalette.tsx. Shell/Palette/Keys: its keys.
--   Shell/Shortcuts, Shell/Swipe, Shell/Drawer and Shell/Scroll: of DashboardShell.tsx, the keyboard
--   shortcuts, the swipe that opens the drawer, the drawer with its keys and the focus, and the positions
--   of the routes with the browser's clamping. Shell/Theme: useTheme of apps/web/src/lib/ui.tsx.
--   Shell/Expiring: SessionExpiringBanner of Banners.tsx.
-- - Product: the handlers of ProductPage.tsx. Product/Invites: its bulkInvite. Settings: the handlers and
--   loads of SettingsPage of App.tsx.
-- - Specs/Schema and Specs/Example: exampleFor. Specs/Operation: enrichOperation, and the second pass.
--   Specs/Operation/Lint: the demands of check-contracts.mjs on one operation. Specs/Contract: all its
--   checks, from the calls that it found on. Specs/Compose: the loop over the services and the pass over
--   the whole. Specs/Changelog: api-changelog.mjs. Specs/Objects: JavaScript objects as lists of entries,
--   in the order of Object.entries.
-- - Checks/Migrations: snapshot and verify of scripts/check-migrations.mjs. Checks/Retention: the versions
--   that scripts/registry-retention.mjs deletes. Checks/Lanes: the lanes of scripts/ci-changes.mjs.
--   Checks/Coverage: the gate of scripts/check-coverage.mjs, from the lines of the diff and the rows of
--   the profile on.
-- - The files below these hold the proofs, and the files called Tests hold examples.
--
-- Numbers are natural numbers, and subtraction stops at 0 where the source writes Math.max(0, ...). The
-- pager of the users counts in parts of a row and of a page, any number of parts to one, since the page
-- that is typed may be a fraction.
-- Times are milliseconds in Contracts/Refresh, Shell and Ui, and seconds in the forms. Functions are
-- total by structural recursion, but for three on fuel. The parts of a line of Markdown: one more than
-- its length is enough. The loop of loadUsers, whose end depends on the backend: a backend of a fixed
-- list needs one round more than a fiftieth of its users. And exampleFor, at each reference it follows:
-- the depth of the references is enough. The systems of bundles and tabs, the toasts, the dialogs, the
-- timers, the palette, the shortcuts, the touches, the scrolling and the settings run over any sequence
-- of steps or events.
--
-- Parameters: the checks of zod, String.prototype.toLowerCase and localeCompare, JSON.stringify and
-- JSON.parse of a user, a role or a stored value, where Tab leads by itself, which elements take the
-- focus, how far a page scrolls, the Unicode classes of a password, atob with JSON.parse, the matching
-- of routes, the backend's answers, random bytes, and the query cache.
--
-- Not modelled: the drawing of the pages and their styles, react-router, React's scheduling, service
-- worker, web vitals, mocks, generated API types, the Go services and end-to-end tests; of the scripts all
-- but those named here, and of these the reading and writing of files, the constant parts of the
-- description, the audit table, the badges of the coverage, and the lint of migrations. Of the shared
-- components of packages/ui seven are modelled; of the host's shell the palette, the shortcuts, the swipe,
-- the drawer, the positions of the routes, two banners; of the settings page its requests, without the
-- inputs of its fields.
pub mod Prelude
pub mod QueryClient
pub mod Contracts
pub mod Session
pub mod Auth
pub mod Users
pub mod Roles
pub mod Ui
pub mod Shell
pub mod Product
pub mod Settings
pub mod Specs
pub mod Checks
