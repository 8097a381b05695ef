-- ===== src/Lib.antt =====
-- A model of the core of Thirty, a Minecraft Classic server written in C, and the theorems about it.
--
-- Each module is named for the part of the program that it models:
--   Word      `size_t` arithmetic, casts and the macro util_min (src/util.h)
--   Endian    byte order and memory images of words (src/endian.h)
--   Buffer    memory buffers (src/buffer.c, src/buffer.h): create, seek, read, resize, write;
--             Buffer/Typed the typed reads and writes, Buffer/McStr the text fields
--   Block     the block table and the fallback of blocks (src/blocks.c, src/blocks.h)
--   Map       the block array: positions, indexes, reads, the top of a column (src/map.c, src/map.h)
--   World     map_set with the place and break functions that it calls, the ticks that it schedules
--             and the packets that it puts into the output buffers (src/map.c, src/blocks.c);
--             World/Behaviour the tick functions of sand, gravel, liquids and grass, World/Safe where
--             a block can be set, World/Depth how deep the calls of map_set nest
--   Text      texts as lists of characters, with trim (src/config.c)
--   Config    the settings file: Config/Parse its parser, Config/Settings the callback that stores a
--             setting, the colours and the proxies, Config/Init the loading and the defaults
--             (src/config.c, src/config.h)
--   Namelist  the lists of names: reading and lookup (src/namelist.c)
--   Nbt       named binary tags: building, finding, writing and reading them (src/nbt.c,
--             src/nbt.h); the arrays of a tag are as long as its `array_size` says, and shorter
--             than 2^31. A text is the bytes that are allocated for it: one that nbt_read left without a
--             0 is not written again, since `strlen` would read beyond it
--   MapFile   saving a map and loading it (src/mapsave.c); zlib with the file is the record Gzip. A
--             failing call of zlib or of the file is left out, as are the names of the files
--   WebSocket the frames around the packets of a web client (src/client.c); what the packets
--             of a frame and the closing of a connection do is handed in, with the position that it
--             leaves in the frame
--   Rng       the random numbers (src/rng.c)
--   Tree      the space for a tree, its growth, and the tick of a sapling (src/mapgen.c, src/blocks.c)
--   Flood     the flood fill and its stack (src/mapgen.c)
--   Generate  the choice of a generator and the simple generators (src/mapgen.c, src/mapgen_flat.c,
--             src/mapgen_debug.c); classic and seantest, which use floating point, are handed in, and the
--             theorem on map_generate is about the other names
--   Ticking   map_tick: the random ticks and the scheduled ones (src/map.c)
--   Protocol  the packets of a client: Protocol/Enter the login with what is sent for it, Protocol/Packets the
--             other packets, Protocol/Handle the loop over the input (src/client.c, src/cpe.c, and
--             server_broadcast of src/server.c)
--   Server    accepting clients and dropping those that are gone (src/server.c)
--   Login     the login packet: its fields, the checks, and the client after it (src/client.c)
--   SetBlock  the packet by which a client changes a block, on top of World (src/client.c)
--   SendMap   what a client is sent of the map, before it is compressed (src/mapsend.c, src/client.c)
--   Tests     concrete runs, and each theorem at an input that meets its hypotheses
--
-- A function keeps the name that it has in the source without the prefix of its file, or with it where
-- the module would not tell (map_set, map_add_tick). A function that updates an object returns the new
-- object beside its result. Numbers are natural numbers, with the wrapping of `size_t` written out
-- (add_size, sub_size, mul_size). A Buffer holds its block as a list, whose length is `mem.size`; what
-- `realloc` does is the record Allocator, which every growing operation takes. Where the source would
-- read or write outside an array (the map's blocks, the block table, the array of a text field, the buffer
-- of a parser), or hand NULL to `strcmp`, the model returns `none`; a function pointer is the
-- constructor of the function's name.
--
-- A text is the list of its characters; a parser is a machine that takes them one at a time, the last
-- round that `while (!feof(fp))` adds included, with the character that its buffer still holds as a
-- parameter. `strtol`, `strtoul` and the contents of the files are parameters.
--
-- map_set is called again by the place functions of sponges and water, and these calls nest: `fuel`
-- bounds the nesting, and a call that it does not allow is `none`. Two is enough for every block (World/Depth); a
-- block without a place function needs a fuel of one, and falling blocks no more. The unset variables and arrays of
-- a handler hold the same in every round. The coordinates around a tree are not bounded as an `int` is.
--
-- The loop over the frames of a web client has one round for each byte received as its fuel. What
-- goes into an output buffer stays there: sending it, which empties the buffer, is outside of the model.
-- `md5` is a parameter of the login, and the way of an angle through `float` one of the packet with a player's
-- position. The loop over a client's input has a bound on its rounds; the bytes that are left are enough.
--
-- The generator of random numbers wraps where its signed arithmetic overflows. The loop that draws a number
-- ends within 2^47 + 1 rounds, and the flood fill within 5 rounds for each block and two more; the bound on its rounds is a parameter, as is that of the loop over the
-- scheduled ticks, which may add ticks as it goes: no theorem says that this loop ends.
--
-- Not modelled: buffers over files, sockets, threads, the log, the images and the heartbeat,
-- which are input and output; release of memory; the bundled libraries of lib/; the tick of a client, with
-- the pieces of the map that it sends; the generators with floating point, and the headers of HTTP.
pub mod Prelude
pub mod Word
pub mod Endian
pub mod Text
pub mod Buffer
pub mod Block
pub mod Map
pub mod Rng
pub mod World
pub mod Tree
pub mod Flood
pub mod Ticking
pub mod Generate
pub mod Config
pub mod Namelist
pub mod Nbt
pub mod MapFile
pub mod WebSocket
pub mod Server
pub mod Login
pub mod SetBlock
pub mod SendMap
pub mod Protocol
pub mod Tests
