-- ===== src/Lib.antt =====
-- Catalogger, a Discord bot that writes the events of a guild to log channels, as definitions and
-- theorems about its Go code.
--
-- The program. The gateway's events go to handlers (logging/), which read and write the caches of
-- guilds, channels and roles (store/) and the database (db/), and call `Send` of package bot. `Send`
-- queues an embed for the webhook of a log channel (bot/queue.go); a full queue or a timer empties it.
-- The command /config channels (commands/config/) is a menu that changes in the database which event
-- is logged where. A command line tool (cmd/importdb) copies the messages of an old database. All of
-- these share the concurrent set and map of common/.
--
-- The files.
--   Base        the names all modules share: Boolean tests, lists, equality, Go's errors as `Result`,
--               and Go's built-in map (`GoMap`), an association list with one entry for a key.
--   Discord     what is relied on of the library arikawa: identifiers, constants and structs.
--               `Sample` has a value of it, which the tests use.
--   Common      common/set.go and common/map.go: `Set`, `Map`, one function for a method. A method
--               (but for `Values` of the map) holds the mutex for its whole body, so it is one atomic
--               step. `Permissions` and `Colours` have the tables of common/permission_strings.go and
--               common/colours.go, `Duration` is common/duration/duration.go.
--   Store       store/store.go (`Interface`), store/memory/store.go (`Slice` is `remove`), and
--               store/memory/channel.go, role.go and guild.go (`Memory`). `Index` is the pair of maps
--               that the caches of channels and of roles both are. `Redis` is store/redis, over a
--               server (`Server`) with the commands that the code sends.
--   Db          db/channels.go (`Channels`: `LogChannels`, `For`), db/crypt.go (`Crypt`), db/guild.go
--               and the statements of db/channels.go (`Guilds`), db/message.go (`Rows`, `Messages`).
--               `Tables` has the tables as maps and an action on them; a statement may fail, and
--               which ones do is part of the state.
--   Config      commands/config/channels.go: the table of buttons and the page of a log channel, and
--               in `Session` the loop of the menu, one step for an event, with Go's nil pointers.
--   Bot         bot/queue.go (`Queue`: a labelled step for each atomic section of the handlers and of
--               the timer's callback, run in any order; `Send`: the function of this name over the
--               queues of all webhooks), bot/webhooks.go (`Webhooks`), bot/users.go (`Users`) and
--               bot/metrics (`Metrics`: the counters and their submission; `Paths`: the names of
--               endpoints, with the regular expressions that paths.go uses).
--   Logging     logging/messages: `State` is what its handlers share, `Create`, `Update` and `Delete`
--               are message_create.go, message_update.go and message_delete.go, each handler whole;
--               `Routing` has the ignores and redirects that two of them share, `Split` the fields of
--               a long content, `Events` sequences of events. logging/cache (`Cache`: the guilds whose
--               members and invites are still to be fetched), logging/roles (`Roles`, over any role
--               store with the laws of `Store.Interface`; the tests use the store in memory),
--               logging/invites (`Invites`, over the store in Redis), logging/channels (`Channels`)
--               and logging/meta (`Meta`).
--   ImportDb    cmd/importdb/message.go: `Old` reads and decrypts a page, `Messages` is the loop.
--               `Command` is cmd/importdb/cmd.go.
--
-- What is sent: a handler's calls of `Send` are a list in the handler's state; `Bot.Send` is about
-- such calls. Handlers run one after the other; the message create handler, which sleeps, is two
-- functions, and the queue of embeds, which is shared by goroutines, is modelled by interleavings.
--
-- Bounds and fuel. Identifiers, colours and lengths are natural numbers, with which the modelled code
-- does not compute so that it could wrap; the sizes of attachments wrap at 2 ^ 64, the counters of the
-- metrics at 2 ^ 32, and a set of permissions has 64 bits. Text is the list of its bytes. The loop of
-- the import runs on fuel, one unit for a page; its theorems are about one unit more than the old
-- table has rows, since a page has one
-- row at least. Every other loop is a recursion on a list.
--
-- Parameters. The cipher and the random source (Go's crypto library), JSON, `encoding/hex`, base64,
-- regular expressions, floating-point numbers, Redis, Discord's and PluralKit's answers, the member
-- cache, clocks and the texts that libraries make of identifiers are arguments, with what is
-- documented of them as laws (`Gcm.open-seal`, `Crypto.length-random`, `Services.unmarshal-marshal`,
-- `Json.unmarshal-marshal`, those of `Discord.show` and `Decimal`, the laws of `Redis` and
-- of `Floats`). Each has a concrete value in a module of tests or samples.
--
-- Not modelled. What is written to the program's own log; the requests to Discord over HTTP; an
-- author's icon in an embed; start-up, configuration, command-line flags and migrations; the texts of
-- the meta commands.
pub mod Base
pub mod Discord
pub mod Common
pub mod Store
pub mod Db
pub mod Config
pub mod Bot
pub mod Logging
pub mod ImportDb
